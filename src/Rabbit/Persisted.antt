-- ===== src/Rabbit/Persisted.antt =====
-- The writes of a rabbit store are found again after Close.
use onvakv.Base.{
  ℕ, suc, ◌*◌, ◌^◌, ◌<◌, true, false, Bool-cases, Option, none, some, some-injective, List, [], ◌∷◌,
  length, map, All, ◌≡◌, inl, inr, refl, sym, ap, subst, ◌∙◌, arith,
}
use mathlib.Core.Path.{fun_ext}
use onvakv.ByteSlices.{bytes_eq}
use onvakv.Types.{Bytes}
use onvakv.Store.Cache.{Value, lookup, Serializable, BTree}
use onvakv.Store.Layers.{RootStore, TrunkStore, trunk_get}
use onvakv.Rabbit.Cached.{Held, held_bytes}
use onvakv.Rabbit.Multi.{SimpleMultiStore, new_simple_multi_store, simple_write_back, simple_close}
use onvakv.Rabbit.Operations.{rabbit_get}
use onvakv.Rabbit.Cells.{Cell, cells}
use onvakv.Rabbit.Live.{Live, Any, Absent, HasDistinctKeys, home, way, count}
use onvakv.Rabbit.Represents.{IsPlaced, IsCounted, Represents}
use onvakv.Rabbit.Reloaded.{raw_held, raw_obj}
use onvakv.Rabbit.Closed.{all_fit, scan_all_entries-ScannedAll}
use onvakv.Rabbit.Reopened.{all_short, reload_cell, reload_entry, reopened_cell, closed}
use onvakv.Rabbit.Writes.{count_bound}
use onvakv.Rabbit.Holds.{content, Holds, has_room}
use onvakv.Rabbit.Refined.{RabbitWrite, replay, run_writes, HasRooms, bytes_of}
use onvakv.Rabbit.Runs.{run_writes-Holds, get-replay, new-Holds}

module _ (sha256 : Bytes → Bytes) (S : Serializable) where
  reload_Absent :
      (key : Bytes) (es : List (Live S.Obj)) → Absent key es → Absent key (map (reload_entry S) es)
  reload_Absent key [] a = tt
  reload_Absent key (e ∷ es) a = (a.0, reload_Absent key es a.1)

  reload_HasDistinctKeys :
      (es : List (Live S.Obj)) → HasDistinctKeys es → HasDistinctKeys (map (reload_entry S) es)
  reload_HasDistinctKeys [] d = tt
  reload_HasDistinctKeys (e ∷ es) d = (reload_Absent e.key es d.0, reload_HasDistinctKeys es d.1)

  reload_length : (es : List (Live S.Obj)) → length (map (reload_entry S) es) ≡ length es
  reload_length [] = refl
  reload_length (e ∷ es) = ap suc (reload_length es)

  reload_count :
      (k : Bytes) (es : List (Live S.Obj))
      → count sha256 k (map (reload_entry S) es) ≡ count sha256 k es
  unfolding count
  reload_count k [] = refl
  reload_count k (e ∷ es) = omega (arith, reload_count k es)

  reload_Any :
      (k key : Bytes) (es : List (Live S.Obj))
      → Any (λ e. (e.key ≡ key) × (home sha256 e ≡ k)) es
      → Any (λ e. (e.key ≡ key) × (home sha256 e ≡ k)) (map (reload_entry S) es)
  reload_Any k key [] a = absurd a
  reload_Any k key (e ∷ es) (inl p) = inl p
  reload_Any k key (e ∷ es) (inr a) = inr (reload_Any k key es a)

  reload_way :
      (f : Bytes → Option (Cell S.Obj)) (key : Bytes) (ks : List Bytes)
      → All (λ k. (c : Cell S.Obj) × (f k ≡ some c) × (bytes_eq c.key key ≡ false)) ks
      → All
          (λ k. (c : Cell S.Obj) × (reload_cell S (f k) ≡ some c) × (bytes_eq c.key key ≡ false))
          ks
  reload_way f key [] a = tt
  reload_way f key (k ∷ ks) a = (
    (record a.0.0 { obj = raw_obj S a.0.0.is_empty a.0.0.obj }, ap (reload_cell S) a.0.1, a.0.2),
    reload_way f key ks a.1,
  )

  reload-IsPlaced :
      (f : Bytes → Option (Cell S.Obj)) (es : List (Live S.Obj))
      → All (IsPlaced sha256 f) es
      → All (IsPlaced sha256 (λ k. reload_cell S (f k))) (map (reload_entry S) es)
  reload-IsPlaced f [] a = tt
  reload-IsPlaced f (e ∷ es) a = (
    record {
      near = a.0.near;
      cell = record a.0.cell { obj = raw_obj S a.0.cell.is_empty a.0.cell.obj };
      here = ap (reload_cell S) a.0.here;
      same_key = a.0.same_key;
      full = a.0.full;
      same_obj = ap (λ b. raw_obj S b a.0.cell.obj) a.0.full ∙ ap (raw_held S) a.0.same_obj;
      others = reload_way f e.key (way sha256 e) a.0.others;
    },
    reload-IsPlaced f es a.1,
  )

  reload-IsCounted :
      (k : Bytes) (o : Option (Cell S.Obj)) (n : ℕ) (es : List (Live S.Obj))
      → IsCounted sha256 k o n es
      → IsCounted sha256 k (reload_cell S o) n (map (reload_entry S) es)
  reload-IsCounted k none n es i = i
  reload-IsCounted k (some c) n es i = (i.0, i.1, λ y. reload_Any k c.key es (i.2 y))

  pub reload_Represents :
      (f : Bytes → Option (Cell S.Obj)) (es : List (Live S.Obj))
      → Represents sha256 f es
      → Represents sha256 (λ k. reload_cell S (f k)) (map (reload_entry S) es)
  reload_Represents f es r = record {
    few = subst (λ n. 100 * n < 2 ^ 64) (sym (reload_length es)) r.few;
    distinct = reload_HasDistinctKeys es r.distinct;
    placed = reload-IsPlaced f es r.placed;
    slots = λ k.
        subst (λ n. IsCounted sha256 k (reload_cell S (f k)) n (map (reload_entry S) es))
          (sym (reload_count k es)) (reload-IsCounted k (f k) (count sha256 k es) es (r.slots k));
  }

  reload_content :
      (es : List (Live S.Obj)) (key : Bytes)
      → bytes_of S (content (map (reload_entry S) es) key) ≡ bytes_of S (content es key)
  unfolding content
  reload_content [] key = refl
  reload_content (e ∷ es) key = elim (Bool-cases (bytes_eq e.key key)) [
    | inl b ↦ rw b (held e.obj)
    | inr b ↦ rw b (reload_content es key)
  ]
    where
      held : (o : Option (Held S.Obj)) → bytes_of S (some (raw_held S o)) ≡ bytes_of S (some o)
      held none = refl
      held (some h) = unfold held_bytes in refl

  module _ (B : BTree (Value S.Obj)) (R : RootStore S) where
    -- A store that is opened again over the trunk holds the same keys, with their objects as bytes.
    pub close-Holds :
        (s : SimpleMultiStore S B R) (es : List (Live S.Obj))
        → Holds sha256 S B R s es
        → all_fit S s.cache ≡ true
        → all_short S s.cache ≡ true
        → (ts : TrunkStore S B R) × (simple_close S B R s true ≡ some ts)
          × Holds sha256 S B R (new_simple_multi_store S B R ts) (map (reload_entry S) es)
    unfolding simple_close simple_write_back new_simple_multi_store cells
    close-Holds s es h f q =
        (let w = scan_all_entries-ScannedAll S B R s.cache s.trunk.cache h.readable.distinct f in
          let each = λ (k : Bytes).
            reopened_cell S B R s h.readable w.after k (w.found k) (lookup s.cache k) refl f q
              (λ x e. omega (
                arith,
                h.represents.few,
                (count_bound sha256 S B R (cells S B R s) es k x h.represents e).1,
              )) in
          (
            closed S B R s h.readable w.after,
            rw (h.readable.idle, w.done) refl,
            record {
              readable = record {
                idle = h.readable.idle;
                pointers = λ k e. cc;
                parsed = λ k. (each k).1;
                distinct = tt;
                clean = λ k v e n. cc;
              };
              represents =
                  subst (λ g. Represents sha256 g (map (reload_entry S) es))
                    (sym (fun_ext (λ k. (each k).0)))
                    (reload_Represents (cells S B R s) es h.represents);
            },
          ))

    -- Any run of Sets, SetObjs and Deletes that find room, shorter than 2^64 / 100, on a rabbit store over a
    -- trunk that has nothing, that ends in a store `s` with no object lent out and keys shorter than
    -- 2^32: Close with write-back does not panic, and a new rabbit store over the trunk answers Get of a key
    -- that finds room with the bytes that were last set under it, and with nothing where it was not set or
    -- was deleted since.
    pub simple_close-rabbit_get :
        (ws : List (RabbitWrite S.Obj)) (trunk : TrunkStore S B R) (s : SimpleMultiStore S B R)
        → trunk.is_writing ≡ 0
        → ((k : Bytes) → trunk_get S B R trunk k ≡ some none)
        → 100 * length ws < 2 ^ 64
        → HasRooms S sha256 B R ws (new_simple_multi_store S B R trunk)
        → run_writes S sha256 B R ws (new_simple_multi_store S B R trunk) ≡ some s
        → all_fit S s.cache ≡ true
        → all_short S s.cache ≡ true
        → (ts : TrunkStore S B R) × (simple_close S B R s true ≡ some ts)
          × ((key : Bytes)
              → has_room sha256 S B R (new_simple_multi_store S B R ts) key ≡ true
              → (s' : SimpleMultiStore S B R) × (rabbit_get sha256 S B R
                    (new_simple_multi_store S B R ts)
                    key
                  ≡ some (s', replay S ws (λ _. none) key)))
    simple_close-rabbit_get ws trunk s idle vacant few rooms run f q =
        (let (s₁, es, done, h, a) =
            run_writes-Holds S sha256 B R ws (new_simple_multi_store S B R trunk) [] (λ _. none)
              (new-Holds S sha256 B R trunk idle vacant) (omega (arith, few)) rooms
              (λ j. unfold content in refl) in
          let held : Holds sha256 S B R s es =
            subst (λ t. Holds sha256 S B R t es) (some-injective s₁ s (sym done ∙ run)) h in
          let (ts, end, h') = close-Holds s es held f q in
          (
            ts,
            end,
            λ key room.
                get-replay S sha256 B R (new_simple_multi_store S B R ts) (map (reload_entry S) es)
                  key (replay S ws (λ _. none) key) h' room (reload_content es key ∙ a key),
          ))
