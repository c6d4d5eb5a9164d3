-- ===== src/Store/Transaction.antt =====
-- A whole transaction: Set and Delete on a MultiStore over the trunk, and Close with write-back.
use onvakv.Base.{
  true, Option, none, some, none-ne-some, some-injective, List, [], ◌∷◌, ◌≡◌, refl, sym, ap, subst,
  ◌∙◌, if◌then◌else◌, ◌>>=◌, All, Bool-cases, Option-cases, inl, inr,
}
use onvakv.ByteSlices.{bytes_eq, bytes_eq_refl, bytes_eq_sound}
use onvakv.Types.{Bytes}
use onvakv.Store.Cache.{
  Value, raw_bytes, serializable, nil_value, deleted_value, missed, just_deleted, hit, Serializable,
  lookup, HasDistinctEntryKeys, BTree, cache_get, cache_set, cache_delete,
}
use onvakv.Store.Layers.{
  RootStore, TrunkStore, MultiStore, cached, trunk_get, multi_get, multi_set, multi_delete,
  multi_write_back, trunk_prepare_for_update, trunk_prepare_for_deletion,
}
use onvakv.Store.Written.{is_settled, lookup-Misses, multi_write_back-get}

-- The writes of a transaction.
pub data Write : Type 0 where
  set_bytes : Bytes → Bytes → Write
  delete_key : Bytes → Write

-- What the writes make of the answer for a key: the last write of the key counts.
unfoldable pub overlay : List Write → Bytes → Option (Option Bytes) → Option (Option Bytes)
overlay [] k d = d
overlay (set_bytes j v ∷ ws) k d = overlay ws k (if bytes_eq j k then some (some v) else d)
overlay (delete_key j ∷ ws) k d = overlay ws k (if bytes_eq j k then some none else d)

entries_settled :
    {O : Type 0} (kvs : List (Bytes × Value O))
    → HasDistinctEntryKeys kvs
    → ((k : Bytes) (v : Value O) → lookup kvs k ≡ some v → is_settled v ≡ true)
    → All (λ kv. is_settled kv.1 ≡ true) kvs
entries_settled [] d s = tt
entries_settled ((j, w) ∷ kvs) d s = (
  s j w (rw (bytes_eq_refl j) refl),
  entries_settled kvs d.1 (λ k v e. elim (Bool-cases (bytes_eq j k)) [
    | inl same ↦ absurd (
        none-ne-some v
          (sym (ap (lookup kvs) (sym (bytes_eq_sound j k same)) ∙ lookup-Misses kvs j d.0) ∙ e))
    | inr other ↦ s k v (rw other e)
  ]),
)

module _ (S : Serializable) (B : BTree (Value S.Obj)) (R : RootStore S) where
  unfoldable pub run_writes : MultiStore S B R → List Write → Option (MultiStore S B R)
  run_writes ms [] = some ms
  run_writes ms (set_bytes k v ∷ ws) = do ms' ← multi_set S B R ms k v; run_writes ms' ws
  run_writes ms (delete_key k ∷ ws) = do ms' ← multi_delete S B R ms k; run_writes ms' ws

  -- No object is lent out by the transaction's cache, and the trunk is not being written.
  pub record IsQuiet (ms : MultiStore S B R) : Type 0 where
    pub idle : ms.trunk.is_writing ≡ 0
    pub settled : (k : Bytes) (v : Value S.Obj) → B.get ms.cache k ≡ some v → is_settled v ≡ true

  -- What a write has done.
  pub record Wrote (ms : MultiStore S B R) (j : Bytes) (d : Option (Option Bytes))
      (ms' : MultiStore S B R) : Type 0 where
    pub quiet : IsQuiet ms'
    pub answers :
        (k : Bytes) → multi_get S B R ms' k ≡ (if bytes_eq j k then d else multi_get S B R ms k)

  settled-set :
      (c : B.Tree) (j : Bytes) (w : Value S.Obj)
      → is_settled w ≡ true
      → ((k : Bytes) (v : Value S.Obj) → B.get c k ≡ some v → is_settled v ≡ true)
      → (k : Bytes) (v : Value S.Obj) → B.get (B.set c j w) k ≡ some v
      → is_settled v ≡ true
  settled-set c j w good s k v e = elim (Bool-cases (bytes_eq j k)) [
    | inl same ↦
        subst (λ u. is_settled u ≡ true)
          (some-injective w v (sym (B.get-set c j k w ∙ rw same refl) ∙ e)) good
    | inr other ↦ s k v (sym (B.get-set c j k w ∙ rw other refl) ∙ e)
  ]

  multi_get_same :
      (ms ms' : MultiStore S B R) (k : Bytes) (o : Option (Value S.Obj))
      → B.get ms.cache k ≡ o
      → B.get ms'.cache k ≡ o
      → trunk_get S B R ms'.trunk k ≡ trunk_get S B R ms.trunk k
      → multi_get S B R ms' k ≡ multi_get S B R ms k
  unfolding multi_get cache_get
  multi_get_same ms ms' k none e f t = rw (e, f, multi_get, cache_get) t
  multi_get_same ms ms' k (some (raw_bytes b)) e f t = rw (e, f, multi_get, cache_get) refl
  multi_get_same ms ms' k (some (serializable o)) e f t = rw (e, f, multi_get, cache_get) refl
  multi_get_same ms ms' k (some nil_value) e f t = rw (e, f, multi_get, cache_get) refl
  multi_get_same ms ms' k (some deleted_value) e f t = rw (e, f, multi_get, cache_get) refl

  -- The root's answers are all that the trunk takes from it.
  pub trunk_get-root :
      (ts : TrunkStore S B R) (r : R.Root) (k : Bytes)
      → R.get r k ≡ R.get ts.root k
      → trunk_get S B R (record ts { root = r }) k ≡ trunk_get S B R ts k
  unfolding trunk_get
  trunk_get-root ts r k e = elim (Option-cases (cache_get S B ts.cache k)) [
    | inl dead ↦ rw (dead, trunk_get) refl
    | inr (missed, found) ↦ rw (found, trunk_get, e) refl
    | inr (just_deleted, found) ↦ rw (found, trunk_get) refl
    | inr (hit b, found) ↦ rw (found, trunk_get) refl
  ]

  multi_get-hit :
      (ms : MultiStore S B R) (k v : Bytes)
      → B.get ms.cache k ≡ some (raw_bytes v)
      → multi_get S B R ms k ≡ some (some v)
  unfolding multi_get cache_get
  multi_get-hit ms k v e = rw (e, multi_get, cache_get) refl

  multi_get-deleted :
      (ms : MultiStore S B R) (k : Bytes)
      → B.get ms.cache k ≡ some deleted_value
      → multi_get S B R ms k ≡ some none
  unfolding multi_get cache_get
  multi_get-deleted ms k e = rw (e, multi_get, cache_get) refl

  pub multi_set-Wrote :
      (ms : MultiStore S B R) (j v : Bytes)
      → IsQuiet ms
      → (ms' : MultiStore S B R) × (multi_set S B R ms j v ≡ some ms')
        × Wrote ms j (some (some v)) ms'
  unfolding multi_set trunk_prepare_for_update cache_set
  multi_set-Wrote ms j v q =
      let ts = record ms.trunk { root = R.prepare_for_update ms.trunk.root j } in
      let ms' : MultiStore S B R = record { cache = B.set ms.cache j (raw_bytes v); trunk = ts } in
      (
        ms',
        rw q.idle refl,
        record {
          quiet = record {
            idle = q.idle;
            settled = settled-set ms.cache j (raw_bytes v) refl q.settled;
          };
          answers = λ k. elim (Bool-cases (bytes_eq j k)) [
            | inl same ↦
                multi_get-hit ms' k v (B.get-set ms.cache j k (raw_bytes v) ∙ rw same refl)
                ∙ rw same refl
            | inr other ↦
                multi_get_same ms ms' k (B.get ms.cache k) refl
                  (B.get-set ms.cache j k (raw_bytes v) ∙ rw other refl)
                  (trunk_get-root ms.trunk (R.prepare_for_update ms.trunk.root j) k
                    (R.get-prepare_for_update ms.trunk.root j k))
                ∙ rw other refl
          ];
        },
      )

  pub multi_delete-Wrote :
      (ms : MultiStore S B R) (j : Bytes)
      → IsQuiet ms
      → (ms' : MultiStore S B R) × (multi_delete S B R ms j ≡ some ms') × Wrote ms j (some none) ms'
  unfolding multi_delete trunk_prepare_for_deletion cache_delete
  multi_delete-Wrote ms j q =
      let ts = record ms.trunk { root = R.prepare_for_deletion ms.trunk.root j } in
      let ms' : MultiStore S B R = record { cache = B.set ms.cache j deleted_value; trunk = ts } in
      (
        ms',
        rw q.idle refl,
        record {
          quiet = record {
            idle = q.idle;
            settled = settled-set ms.cache j deleted_value refl q.settled;
          };
          answers = λ k. elim (Bool-cases (bytes_eq j k)) [
            | inl same ↦
                multi_get-deleted ms' k (B.get-set ms.cache j k deleted_value ∙ rw same refl)
                ∙ rw same refl
            | inr other ↦
                multi_get_same ms ms' k (B.get ms.cache k) refl
                  (B.get-set ms.cache j k deleted_value ∙ rw other refl)
                  (trunk_get-root ms.trunk (R.prepare_for_deletion ms.trunk.root j) k
                    (R.get-prepare_for_deletion ms.trunk.root j k))
                ∙ rw other refl
          ];
        },
      )

  run_writes-overlay :
      (ws : List Write) (ms : MultiStore S B R)
      → IsQuiet ms
      → (ms' : MultiStore S B R) × (run_writes ms ws ≡ some ms')
        × IsQuiet ms'
        × ((k : Bytes) → multi_get S B R ms' k ≡ overlay ws k (multi_get S B R ms k))
  unfolding run_writes overlay
  run_writes-overlay [] ms q = (ms, refl, q, λ k. refl)
  run_writes-overlay (set_bytes j v ∷ ws) ms q =
      let (m₁, e₁, w) = multi_set-Wrote ms j v q in
      let (m₂, e₂, q₂, a) = run_writes-overlay ws m₁ w.quiet in
      (m₂, rw e₁ e₂, q₂, λ k. a k ∙ ap (overlay ws k) (w.answers k))
  run_writes-overlay (delete_key j ∷ ws) ms q =
      let (m₁, e₁, w) = multi_delete-Wrote ms j q in
      let (m₂, e₂, q₂, a) = run_writes-overlay ws m₁ w.quiet in
      (m₂, rw e₁ e₂, q₂, λ k. a k ∙ ap (overlay ws k) (w.answers k))

  pub cached-IsQuiet : (ts : TrunkStore S B R) → ts.is_writing ≡ 0 → IsQuiet (cached S B R ts)
  unfolding cached
  cached-IsQuiet ts idle = record {
    idle = idle;
    settled = λ k v e. absurd (none-ne-some v (sym (B.get-tree_new k) ∙ e));
  }

  cached-get :
      (ts : TrunkStore S B R) (k : Bytes)
      → multi_get S B R (cached S B R ts) k ≡ trunk_get S B R ts k
  unfolding cached multi_get cache_get
  cached-get ts k = rw (B.get-tree_new k, multi_get, cache_get) refl

  -- A transaction of Sets and Deletes on a trunk that is not being written, closed with write-back,
  -- does not panic, and then the trunk answers every key as it did before, but for the keys that were
  -- written, where the last write counts.
  pub transaction-overlay :
      (ts : TrunkStore S B R) (ws : List Write)
      → ts.is_writing ≡ 0
      → (ms : MultiStore S B R) × (ts' : TrunkStore S B R) × (run_writes (cached S B R ts) ws
          ≡ some ms)
        × (multi_write_back S B R ms ≡ some ts')
        × ((k : Bytes) → trunk_get S B R ts' k ≡ overlay ws k (trunk_get S B R ts k))
  transaction-overlay ts ws idle =
      let (ms, e, q, a) = run_writes-overlay ws (cached S B R ts) (cached-IsQuiet ts idle) in
      let all_settled =
        entries_settled (B.entries ms.cache) (B.entries-HasDistinctEntryKeys ms.cache)
          (λ k v f. q.settled k v (B.get-entries ms.cache k ∙ f)) in
      let (ts', e', g) = multi_write_back-get S B R ms q.idle all_settled in
      (ms, ts', e, e', λ k. (g k).0 ∙ a k ∙ ap (overlay ws k) (cached-get ts k))
