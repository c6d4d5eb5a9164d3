-- ===== src/Rabbit/Reopened.antt =====
-- A rabbit store that is opened over the trunk to which another one was closed.
use onvakv.Base.{
  ℕ, ◌^◌, ◌<◌, Bool, true, false, ◌&&◌, Bool-cases, Option-cases, Option, none, some,
  some-injective, [], ◌∷◌, length, take, drop, ltb, ltb→lt, ◌≡◌, ◌⊎◌, inl, inr, refl, sym, ap,
  subst, ◌∙◌, if◌then◌else◌, ◌==◌,
}
use onvakv.ByteSlices.{bytes_eq}
use onvakv.Types.{Bytes}
use onvakv.Base.Words.{get_le}
use onvakv.Store.Cache.{
  Value, raw_bytes, serializable, nil_value, deleted_value, Serializable, lookup, BTree, cache_get,
}
use onvakv.Store.Layers.{RootStore, TrunkStore, trunk_get}
use onvakv.Rabbit.Cached.{
  Held, CachedValue, held_bytes, bytes_to_cached_value, parse_cached_value, value_with_marker,
}
use onvakv.Rabbit.Multi.{CacheMap, SimpleMultiStore, is_none}
use onvakv.Rabbit.Cells.{Cell, cell_of, kept, below, cells, Parses, IsReadable}
use onvakv.Rabbit.Live.{Live}
use onvakv.Rabbit.Reloaded.{
  raw_held, raw_obj, reloaded, cached_value_to_bytes-bytes_to_cached_value,
}
use onvakv.Rabbit.Closed.{or_below, fits, all_fit, stored, fits-bytes, stored-dirty}

module _ (S : Serializable) where
  -- The keys have lengths that four bytes hold.
  abbrev pub all_short : CacheMap S → Bool
  all_short [] = true
  all_short ((k, none) ∷ m) = all_short m
  all_short ((k, some v) ∷ m) = ltb (length v.key) 4294967296 && all_short m

  abbrev pub reload_cell : Option (Cell S.Obj) → Option (Cell S.Obj)
  reload_cell none = none
  reload_cell (some c) = some (record c { obj = raw_obj S c.is_empty c.obj })

  abbrev pub reload_entry : Live S.Obj → Live S.Obj
  reload_entry e = record e { obj = raw_held S e.obj }

  both_true : (a b : Bool) → (a && b) ≡ true → (a ≡ true) × (b ≡ true)
  both_true true b e = (refl, e)
  both_true false b e = cc

  lookup-fits :
      (m : CacheMap S) (k : Bytes) (v : CachedValue S.Obj)
      → all_fit S m ≡ true
      → lookup m k ≡ some (some v)
      → fits S (some v) ≡ true
  lookup-fits [] k v f e = cc
  lookup-fits ((j, o) ∷ m) k v f e =
      (let (here, there) = both_true (fits S o) (all_fit S m) f in
        elim (Bool-cases (bytes_eq j k)) [
          | inl b ↦
              subst (λ t. fits S t ≡ true) (some-injective o (some v) (sym (rw b refl) ∙ e)) here
          | inr b ↦ lookup-fits m k v there (sym (rw b refl) ∙ e)
        ])

  lookup-short :
      (m : CacheMap S) (k : Bytes) (v : CachedValue S.Obj)
      → all_short m ≡ true
      → lookup m k ≡ some (some v)
      → length v.key < 2 ^ 32
  lookup-short [] k v f e = cc
  lookup-short ((j, none) ∷ m) k v f e = elim (Bool-cases (bytes_eq j k)) [
    | inl b ↦ cc (some-injective none (some v) (sym (rw b refl) ∙ e))
    | inr b ↦ lookup-short m k v f (sym (rw b refl) ∙ e)
  ]
  lookup-short ((j, some w) ∷ m) k v f e =
      (let (here, there) = both_true (ltb (length w.key) 4294967296) (all_short m) f in
        elim (Bool-cases (bytes_eq j k)) [
          | inl b ↦
              (let same =
                  some-injective w v (some-injective (some w) (some v) (sym (rw b refl) ∙ e)) in
                subst (λ t. length t.key < 2 ^ 32) same (ltb→lt (length w.key) 4294967296 here))
          | inr b ↦ lookup-short m k v there (sym (rw b refl) ∙ e)
        ])

  reload_if :
      (b : Bool) (o : Option (CachedValue S.Obj))
      → reload_cell (kept S o) ≡ kept S o
      → reload_cell (kept S (if b then none else o)) ≡ kept S (if b then none else o)
  reload_if true o e = refl
  reload_if false o e = e

  marker-reload_cell :
      (marker passby_num : ℕ) (key value : Bytes)
      → reload_cell (kept S (some (value_with_marker S marker passby_num key value)))
        ≡ kept S (some (value_with_marker S marker passby_num key value))
  unfolding value_with_marker held_bytes
  marker-reload_cell marker passby_num key value = elim (Bool-cases (marker == 0)) [
    | inl z ↦ rw (value_with_marker, z) refl
    | inr z ↦ rw (value_with_marker, z) refl
  ]

  -- What has been read from bytes has its object as bytes.
  parsed-reload_cell :
      (bz : Bytes)
      → reload_cell (kept S (bytes_to_cached_value S bz)) ≡ kept S (bytes_to_cached_value S bz)
  unfolding bytes_to_cached_value parse_cached_value value_with_marker held_bytes
  parsed-reload_cell [] = refl
  parsed-reload_cell (marker ∷ rest) = reload_if (ltb (length (marker ∷ rest)) 13) _ (
      reload_if (ltb (length (drop 12 rest)) (get_le (take 4 (drop 8 rest)))) _ (
        marker-reload_cell marker (get_le (take 8 rest))
          (take (get_le (take 4 (drop 8 rest))) (drop 12 rest))
          (drop (get_le (take 4 (drop 8 rest))) (drop 12 rest))))

  below-reload_cell : (t : Option (Option Bytes)) → reload_cell (below S t) ≡ below S t
  below-reload_cell none = refl
  below-reload_cell (some none) = refl
  below-reload_cell (some (some bz)) = parsed-reload_cell bz

  fits-settled :
      (v : CachedValue S.Obj)
      → fits S (some v) ≡ true
      → (v.is_empty ≡ true) ⊎ ((h : Held S.Obj) × (v.obj ≡ some h))
  unfolding is_none
  fits-settled v f = elim (Bool-cases v.is_empty) [
    | inl y ↦ inl y
    | inr n ↦ elim (Option-cases v.obj) [ inl gone ↦ cc (f, n, gone) | inr has ↦ inr has ]
  ]

  module _ (B : BTree (Value S.Obj)) (R : RootStore S) where
    trunk_get-cache :
        (ts : TrunkStore S B R) (c : B.Tree) (k : Bytes) (o : Option (Value S.Obj))
        → B.get ts.cache k ≡ o
        → B.get c k ≡ o
        → trunk_get S B R (record ts { cache = c }) k ≡ trunk_get S B R ts k
    unfolding trunk_get cache_get
    trunk_get-cache ts c k none e f = rw (trunk_get, cache_get, e, f) refl
    trunk_get-cache ts c k (some (raw_bytes b)) e f = rw (trunk_get, cache_get, e, f) refl
    trunk_get-cache ts c k (some (serializable o)) e f = rw (trunk_get, cache_get, e, f) refl
    trunk_get-cache ts c k (some nil_value) e f = rw (trunk_get, cache_get, e, f) refl
    trunk_get-cache ts c k (some deleted_value) e f = rw (trunk_get, cache_get, e, f) refl

    module _ (s : SimpleMultiStore S B R) (r : IsReadable S B R s) (c : B.Tree) where
      abbrev pub closed : TrunkStore S B R
      closed = record s.trunk { cache = c }

      module _ (k : Bytes)
          (found : B.get c k ≡ or_below (stored S (lookup s.cache k)) (B.get s.trunk.cache k)) where
        unstored :
            stored S (lookup s.cache k) ≡ none
            → trunk_get S B R closed k ≡ trunk_get S B R s.trunk k
        unstored e = trunk_get-cache s.trunk c k (B.get s.trunk.cache k) refl (found ∙ rw e refl)

        below_stored : (v : Value S.Obj) → stored S (lookup s.cache k) ≡ some v → B.get c k ≡ some v
        below_stored v e = found ∙ rw e refl

        closed_deleted : B.get c k ≡ some deleted_value → trunk_get S B R closed k ≡ some none
        unfolding trunk_get cache_get
        closed_deleted e = rw (r.idle, trunk_get, cache_get, e) refl

        closed_bytes :
            (bz : Bytes)
            → B.get c k ≡ some (raw_bytes bz)
            → trunk_get S B R closed k ≡ some (some bz)
        unfolding trunk_get cache_get
        closed_bytes bz e = rw (r.idle, trunk_get, cache_get, e) refl

        abbrev pub Reopened : Type 0
        Reopened =
            (below S (trunk_get S B R closed k) ≡ reload_cell (cells S B R s k))
            × Parses S (trunk_get S B R closed k)

        reopened_dirty :
            (v : CachedValue S.Obj)
            → lookup s.cache k ≡ some (some v)
            → all_fit S s.cache ≡ true
            → all_short s.cache ≡ true
            → ((x : Cell S.Obj) → cells S B R s k ≡ some x → x.passby_num < 2 ^ 64)
            → v.is_dirty ≡ true
            → Reopened
        unfolding cells reloaded
        reopened_dirty v e f q n y =
            (let fit = lookup-fits s.cache k v f e in
              let (bz, bytes) = fits-bytes S v fit in
              let kept_as = ap (stored S) e ∙ stored-dirty S v bz bytes y in
              elim (Bool-cases v.is_deleted) [
                | inl x ↦
                    (let gone = closed_deleted (below_stored deleted_value (kept_as ∙ rw x refl)) in
                      (ap (below S) gone ∙ sym (rw (e, x) refl), subst (Parses S) (sym gone) tt))
                | inr x ↦
                    (let now : cells S B R s k ≡ some (cell_of v) = rw (e, x) refl in
                      let back =
                        cached_value_to_bytes-bytes_to_cached_value S v (n (cell_of v) now)
                          (lookup-short s.cache k v q e) (fits-settled v fit) in
                      let same : back.0 ≡ bz = some-injective back.0 bz (sym back.1 ∙ bytes) in
                      let parse =
                        subst (λ t. bytes_to_cached_value S t ≡ some (reloaded S v)) same back.2 in
                      let here =
                        closed_bytes bz (below_stored (raw_bytes bz) (kept_as ∙ rw x refl)) in
                      (
                        ap (below S) here ∙ ap (kept S) parse ∙ sym (ap reload_cell now),
                        subst (Parses S) (sym here) (reloaded S v, parse),
                      ))
              ])

        -- The new store sees the cell of the old one with its object as bytes.
        pub reopened_cell :
            (o : Option (Option (CachedValue S.Obj)))
            → lookup s.cache k ≡ o
            → all_fit S s.cache ≡ true
            → all_short s.cache ≡ true
            → ((x : Cell S.Obj) → cells S B R s k ≡ some x → x.passby_num < 2 ^ 64)
            → Reopened
        unfolding cells stored
        reopened_cell none e f q n =
            (let same = unstored (rw e refl) in
              (
                ap (below S) same ∙ sym (rw e (below-reload_cell (trunk_get S B R s.trunk k))),
                subst (Parses S) (sym same) (r.parsed k),
              ))
        reopened_cell (some none) e f q n = absurd (r.pointers k e)
        reopened_cell (some (some v)) e f q n = elim (Bool-cases v.is_dirty) [
          | inl y ↦ reopened_dirty v e f q n y
          | inr y ↦
              (let same = unstored (rw (e, y) refl) in
                (
                  ap (below S) same
                      ∙ sym (below-reload_cell (trunk_get S B R s.trunk k))
                      ∙ ap reload_cell (r.clean k v e y)
                      ∙ sym (rw e refl),
                  subst (Parses S) (sym same) (r.parsed k),
                ))
        ]
