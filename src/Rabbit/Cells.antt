-- ===== src/Rabbit/Cells.antt =====
-- What the short keys of a rabbit store hold.
use onvakv.Base.{
  ℕ, Bool, true, false, Bool-cases, Option, none, some, some-injective, List, [], ◌∷◌, ◌≡◌, ◌≢◌,
  inl, inr, refl, sym, ap, ◌∙◌, subst, arith, if◌then◌else◌,
}
use onvakv.ByteSlices.{bytes_eq, bytes_eq_sound, bytes_eq_refl, bytes_eq_symm}
use onvakv.Types.{Bytes}
use onvakv.Store.Cache.{Value, Serializable, lookup, Misses, HasDistinctEntryKeys, BTree}
use onvakv.Store.Layers.{RootStore, TrunkStore, trunk_get}
use onvakv.Rabbit.Cached.{
  Held, CachedValue, bytes_to_cached_value, parse_cached_value, value_with_marker,
}
use onvakv.Rabbit.Multi.{put_entry, SimpleMultiStore, cache_set_value, get_cached_value}

-- A cached value but for what becomes of it at Close.
pub record Cell (O : Type 0) : Type 0 where
  pub passby_num : ℕ
  pub key : Bytes
  pub obj : Option (Held O)
  pub is_empty : Bool

abbrev pub cell_of : {O : Type 0} → CachedValue O → Cell O
cell_of v = record { passby_num = v.passby_num; key = v.key; obj = v.obj; is_empty = v.is_empty }

abbrev pub kept_cell : {O : Type 0} → CachedValue O → Option (Cell O)
kept_cell v = if v.is_deleted then none else some (cell_of v)

pub lookup-put_entry :
    {V : Type 0} (m : List (Bytes × V)) (k j : Bytes) (v : V)
    → lookup (put_entry m k v) j ≡ (if bytes_eq k j then some v else lookup m j)
unfolding put_entry
lookup-put_entry [] k j v = refl
lookup-put_entry ((i, w) ∷ m) k j v = elim (Bool-cases (bytes_eq i k)) [
  | inl e ↦
      rw (e, bytes_eq_sound i k e)
        (elim (Bool-cases (bytes_eq k j)) [ inl b ↦ rw b refl | inr b ↦ rw b refl ])
  | inr e ↦ rw e (elim (Bool-cases (bytes_eq i j)) [
    | inl b ↦
        (let ne : bytes_eq k j ≡ false = elim (Bool-cases (bytes_eq k j)) [
          | inl c ↦ cc (
            e,
            sym (ap (λ t. bytes_eq t k) (bytes_eq_sound i j b ∙ sym (bytes_eq_sound k j c))),
            bytes_eq_refl k,
          )
          | inr c ↦ c
        ] in
          rw (b, ne) refl)
    | inr b ↦ rw b (lookup-put_entry m k j v)
  ])
]

put_entry-Misses :
    {V : Type 0} (m : List (Bytes × V)) (k j : Bytes) (v : V)
    → bytes_eq k j ≡ false
    → Misses j m
    → Misses j (put_entry m k v)
unfolding put_entry
put_entry-Misses [] k j v ne a = (ne, tt)
put_entry-Misses ((i, w) ∷ m) k j v ne a = elim (Bool-cases (bytes_eq i k)) [
  | inl b ↦ rw b (a.0, a.1)
  | inr b ↦ rw b (a.0, put_entry-Misses m k j v ne a.1)
]

put_entry-HasDistinctEntryKeys :
    {V : Type 0} (m : List (Bytes × V)) (k : Bytes) (v : V)
    → HasDistinctEntryKeys m
    → HasDistinctEntryKeys (put_entry m k v)
unfolding put_entry
put_entry-HasDistinctEntryKeys [] k v d = (tt, tt)
put_entry-HasDistinctEntryKeys ((i, w) ∷ m) k v d = elim (Bool-cases (bytes_eq i k)) [
  | inl b ↦ rw b (d.0, d.1)
  | inr b ↦ rw b (
    put_entry-Misses m k i v (bytes_eq_symm k i ∙ b) d.0,
    put_entry-HasDistinctEntryKeys m k v d.1,
  )
]

module _ (S : Serializable) where
  pub parse-is_deleted :
      (bz : Bytes) (cv : CachedValue S.Obj)
      → bytes_to_cached_value S bz ≡ some cv
      → cv.is_deleted ≡ false
  unfolding bytes_to_cached_value parse_cached_value value_with_marker
  parse-is_deleted [] cv e = ground (arith, e)
  parse-is_deleted (marker ∷ rest) cv e = ground (arith, e)

  abbrev pub kept : Option (CachedValue S.Obj) → Option (Cell S.Obj)
  kept none = none
  kept (some cv) = kept_cell cv

  abbrev pub seen : Option (Option (CachedValue S.Obj)) → Option (Cell S.Obj) → Option (Cell S.Obj)
  seen none below = below
  seen (some cv) below = kept cv

  abbrev pub below : Option (Option Bytes) → Option (Cell S.Obj)
  below none = none
  below (some none) = none
  below (some (some bz)) = kept (bytes_to_cached_value S bz)

  -- The bytes under a short key are those of a cached value.
  abbrev pub Parses : Option (Option Bytes) → Type 0
  Parses none = ⊥
  Parses (some none) = Unit
  Parses (some (some bz)) = (cv : CachedValue S.Obj) × (bytes_to_cached_value S bz ≡ some cv)

  abbrev pub is_some : {A : Type 0} → Option A → Bool
  is_some none = false
  is_some (some a) = true

  module _ (B : BTree (Value S.Obj)) (R : RootStore S) where
    unfoldable pub cells : SimpleMultiStore S B R → Bytes → Option (Cell S.Obj)
    cells s k = seen (lookup s.cache k) (below (trunk_get S B R s.trunk k))

    abbrev pub in_cache : SimpleMultiStore S B R → Bytes → Bool
    in_cache s k = is_some (lookup s.cache k)

    -- The trunk is not being written, no pointer of the cache is nil, what the trunk has parses, and a value
    -- that is not dirty is the trunk's.
    pub record IsReadable (s : SimpleMultiStore S B R) : Type 0 where
      pub idle : s.trunk.is_writing ≡ 0
      pub pointers : (k : Bytes) → lookup s.cache k ≢ some none
      pub parsed : (k : Bytes) → Parses (trunk_get S B R s.trunk k)
      pub distinct : HasDistinctEntryKeys s.cache
      pub clean :
          (k : Bytes) (v : CachedValue S.Obj)
          → lookup s.cache k ≡ some (some v)
          → v.is_dirty ≡ false
          → below (trunk_get S B R s.trunk k) ≡ kept_cell v

    -- `s'` is readable, has the cells `f` and has cached what `s` has.
    pub record Moved (s : SimpleMultiStore S B R) (f : Bytes → Option (Cell S.Obj))
        (s' : SimpleMultiStore S B R) : Type 0 where
      pub readable : IsReadable s'
      pub viewed : (j : Bytes) → cells s' j ≡ f j
      pub cached : (j : Bytes) → in_cache s j ≡ true → in_cache s' j ≡ true

    -- An entry that is put in the cache, over a trunk that answers as before.
    pub put-Moved :
        (s : SimpleMultiStore S B R) (k : Bytes) (cv : CachedValue S.Obj) (ts : TrunkStore S B R)
        → IsReadable s
        → ts.is_writing ≡ 0
        → ((j : Bytes) → trunk_get S B R ts j ≡ trunk_get S B R s.trunk j)
        → (cv.is_dirty ≡ false → below (trunk_get S B R s.trunk k) ≡ kept_cell cv)
        → Moved s
            (λ j. if bytes_eq k j then kept_cell cv else cells s j)
            (record { cache = cache_set_value S s.cache k (some cv); trunk = ts })
    unfolding cells cache_set_value
    put-Moved s k cv ts r idle same clean = record {
      readable = record {
        idle = idle;
        pointers = λ j e. elim (Bool-cases (bytes_eq k j)) [
          | inl b ↦ cc (e, lookup-put_entry s.cache k j (some cv), b)
          | inr b ↦ r.pointers j (
              subst (λ t. (if t then some (some cv) else lookup s.cache j) ≡ some none) b
                (sym (lookup-put_entry s.cache k j (some cv)) ∙ e))
        ];
        parsed = λ j. subst Parses (sym (same j)) (r.parsed j);
        distinct = put_entry-HasDistinctEntryKeys s.cache k (some cv) r.distinct;
        clean = λ j v e n. ap below (same j) ∙ elim (Bool-cases (bytes_eq k j)) [
          | inl b ↦
              (let here : cv ≡ v = some-injective cv v (
                  some-injective (some cv) (some v)
                    (sym (lookup-put_entry s.cache k j (some cv) ∙ rw b refl) ∙ e)) in
                ap (λ i. below (trunk_get S B R s.trunk i)) (sym (bytes_eq_sound k j b))
                ∙ clean (ap (λ t. t.is_dirty) here ∙ n)
                ∙ ap kept_cell here)
          | inr b ↦ r.clean j v (sym (lookup-put_entry s.cache k j (some cv) ∙ rw b refl) ∙ e) n
        ];
      };
      viewed = λ j. elim (Bool-cases (bytes_eq k j)) [
        | inl b ↦ rw (lookup-put_entry s.cache k j (some cv), b) refl
        | inr b ↦ rw (lookup-put_entry s.cache k j (some cv), b, same j) refl
      ];
      cached = λ j e. elim (Bool-cases (bytes_eq k j)) [
        | inl b ↦ rw (lookup-put_entry s.cache k j (some cv), b) refl
        | inr b ↦ rw (lookup-put_entry s.cache k j (some cv), b) e
      ];
    }

    -- A pointer that was read, against the cell.
    abbrev pub Points : Option (CachedValue S.Obj) → Option (Cell S.Obj) → Type 0
    Points none c = c ≡ none
    Points (some cv) c = (c ≡ some (cell_of cv)) × (cv.is_deleted ≡ false)

    pub record Fetched (s : SimpleMultiStore S B R) (k : Bytes) : Type 0 where
      pub store : SimpleMultiStore S B R
      pub cv : Option (CachedValue S.Obj)
      pub done : get_cached_value S B R s k ≡ some (store, cv)
      pub points : Points cv (cells s k)
      pub loaded : is_some cv ≡ true → in_cache store k ≡ true
      pub moved : Moved s (cells s) store

    pub stays : (s : SimpleMultiStore S B R) → IsReadable s → Moved s (cells s) s
    stays s r = record { readable = r; viewed = λ j. refl; cached = λ j e. e }
