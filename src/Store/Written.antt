-- ===== src/Store/Written.antt =====
-- The stores as layers: what a transaction reads after its writes, and after it is written back.
use onvakv.Base.{
  Bool, true, false, Option, none, some, List, [], ◌∷◌, ◌≡◌, refl, sym, ap, ◌∙◌, All, Bool-cases,
  inl, inr,
}
use onvakv.ByteSlices.{bytes_eq, bytes_eq_sound}
use onvakv.Types.{Bytes}
use onvakv.Store.Cache.{
  Value, raw_bytes, serializable, nil_value, deleted_value, Serializable, lookup, Misses,
  HasDistinctEntryKeys, BTree, cache_get, cache_set, cache_set_obj, cache_delete, scan_entries,
}
use onvakv.Store.Layers.{
  RootStore, TrunkStore, MultiStore, trunk_get, trunk_has, multi_get, multi_has, multi_write_back,
}

-- No object is lent out.
abbrev pub is_settled : {O : Type 0} → Value O → Bool
is_settled nil_value = false
is_settled _ = true

pub lookup-Misses :
    {V : Type 0} (kvs : List (Bytes × V)) (k : Bytes) → Misses k kvs → lookup kvs k ≡ none
lookup-Misses [] k m = refl
lookup-Misses ((j, v) ∷ kvs) k m = rw m.0 (lookup-Misses kvs k m.1)

-- The first of two answers.
abbrev over : {V : Type 0} → Option V → Option V → Option V
over none d = d
over (some v) d = some v

module _ (S : Serializable) (B : BTree (Value S.Obj)) where
  step-get :
      (c : B.Tree) (kvs : List (Bytes × Value S.Obj)) (j k : Bytes) (v : Value S.Obj)
      → Misses j kvs
      → over (lookup kvs k) (B.get (B.set c j v) k) ≡ over (lookup ((j, v) ∷ kvs) k) (B.get c k)
  step-get c kvs j k v m = elim (Bool-cases (bytes_eq j k)) [
    | inl e ↦
        let gone : lookup kvs k ≡ none =
          ap (lookup kvs) (sym (bytes_eq_sound j k e)) ∙ lookup-Misses kvs j m in
        rw (B.get-set c j k v, e, gone) refl
    | inr e ↦ rw (B.get-set c j k v, e) refl
  ]

  -- ScanAllEntries with the callback of writeBack.
  abbrev scan_into : List (Bytes × Value S.Obj) → B.Tree → Option B.Tree
  scan_into =
      scan_entries S B (λ c k. some (cache_delete S B c k))
        (λ c k o. some (cache_set_obj S B c k o)) (λ c k b. some (cache_set S B c k b))

  -- What a scan into a cache has done.
  record Scanned (kvs : List (Bytes × Value S.Obj)) (c : B.Tree) : Type 0 where
    after : B.Tree
    done : scan_into kvs c ≡ some after
    found : (k : Bytes) → B.get after k ≡ over (lookup kvs k) (B.get c k)

  scan_into-Scanned :
      (kvs : List (Bytes × Value S.Obj)) (c : B.Tree)
      → HasDistinctEntryKeys kvs
      → All (λ kv. is_settled kv.1 ≡ true) kvs
      → Scanned kvs c
  unfolding scan_entries cache_delete cache_set_obj cache_set
  scan_into-Scanned [] c d n = record { after = c; done = refl; found = λ k. refl }
  scan_into-Scanned ((j, raw_bytes b) ∷ kvs) c d n =
      let r = scan_into-Scanned kvs (B.set c j (raw_bytes b)) d.1 n.1 in
      record {
        after = r.after;
        done = r.done;
        found = λ k. r.found k ∙ step-get c kvs j k (raw_bytes b) d.0;
      }
  scan_into-Scanned ((j, serializable o) ∷ kvs) c d n =
      let r = scan_into-Scanned kvs (B.set c j (serializable o)) d.1 n.1 in
      record {
        after = r.after;
        done = r.done;
        found = λ k. r.found k ∙ step-get c kvs j k (serializable o) d.0;
      }
  scan_into-Scanned ((j, nil_value) ∷ kvs) c d n = cc (n.0)
  scan_into-Scanned ((j, deleted_value) ∷ kvs) c d n =
      let r = scan_into-Scanned kvs (B.set c j deleted_value) d.1 n.1 in
      record {
        after = r.after;
        done = r.done;
        found = λ k. r.found k ∙ step-get c kvs j k deleted_value d.0;
      }

  module _ (R : RootStore S) where
    answer_get :
        (ms : MultiStore S B R) (c : B.Tree) (k : Bytes)
        → ms.trunk.is_writing ≡ 0
        → (o : Option (Value S.Obj)) → B.get ms.cache k ≡ o
        → B.get c k ≡ over o (B.get ms.trunk.cache k)
        → trunk_get S B R (record ms.trunk { cache = c }) k ≡ multi_get S B R ms k
    unfolding trunk_get multi_get cache_get
    answer_get ms c k idle none e f = rw (e, f, multi_get, cache_get, idle, trunk_get) refl
    answer_get ms c k idle (some (raw_bytes b)) e f =
        rw (e, f, multi_get, cache_get, idle, trunk_get) refl
    answer_get ms c k idle (some (serializable o)) e f =
        rw (e, f, multi_get, cache_get, idle, trunk_get) refl
    answer_get ms c k idle (some nil_value) e f =
        rw (e, f, multi_get, cache_get, idle, trunk_get) refl
    answer_get ms c k idle (some deleted_value) e f =
        rw (e, f, multi_get, cache_get, idle, trunk_get) refl

    answer_has :
        (ms : MultiStore S B R) (c : B.Tree) (k : Bytes)
        → ms.trunk.is_writing ≡ 0
        → (o : Option (Value S.Obj)) → B.get ms.cache k ≡ o
        → B.get c k ≡ over o (B.get ms.trunk.cache k)
        → trunk_has S B R (record ms.trunk { cache = c }) k ≡ multi_has S B R ms k
    unfolding trunk_has multi_has cache_get
    answer_has ms c k idle none e f = rw (e, f, multi_has, cache_get, idle, trunk_has) refl
    answer_has ms c k idle (some (raw_bytes b)) e f =
        rw (e, f, multi_has, cache_get, idle, trunk_has) refl
    answer_has ms c k idle (some (serializable o)) e f =
        rw (e, f, multi_has, cache_get, idle, trunk_has) refl
    answer_has ms c k idle (some nil_value) e f =
        rw (e, f, multi_has, cache_get, idle, trunk_has) refl
    answer_has ms c k idle (some deleted_value) e f =
        rw (e, f, multi_has, cache_get, idle, trunk_has) refl

    -- With no object lent out and no write of the trunk going on, writing a transaction back succeeds,
    -- and then the trunk answers Get and Has for every key as the transaction did before.
    pub multi_write_back-get :
        (ms : MultiStore S B R)
        → ms.trunk.is_writing ≡ 0
        → All (λ kv. is_settled kv.1 ≡ true) (B.entries ms.cache)
        → (ts : TrunkStore S B R) × (multi_write_back S B R ms ≡ some ts)
          × ((k : Bytes)
              → (trunk_get S B R ts k ≡ multi_get S B R ms k)
                × (trunk_has S B R ts k ≡ multi_has S B R ms k))
    unfolding multi_write_back
    multi_write_back-get ms idle n =
        let r =
          scan_into-Scanned (B.entries ms.cache) ms.trunk.cache
            (B.entries-HasDistinctEntryKeys ms.cache) n in
        (
          record ms.trunk { cache = r.after },
          rw (idle, r.done) refl,
          λ k.
              let f =
                r.found k
                ∙ ap (λ o. over o (B.get ms.trunk.cache k)) (sym (B.get-entries ms.cache k)) in
              (
                answer_get ms r.after k idle (B.get ms.cache k) refl f,
                answer_has ms r.after k idle (B.get ms.cache k) refl f,
              ),
        )
