-- ===== src/Rabbit/Closed.antt =====
-- What Close with write-back leaves in the trunk.
use onvakv.Base.{
  Bool, true, false, not, ◌&&◌, Bool-cases, Option-cases, Option, none, some, [], ◌∷◌, ◌++◌, ◌≡◌,
  inl, inr, refl, sym, ap, ◌∙◌, arith, if◌then◌else◌, ◌>>=◌,
}
use onvakv.ByteSlices.{bytes_eq, bytes_eq_sound}
use onvakv.Types.{Bytes}
use onvakv.Store.Cache.{
  Value, raw_bytes, deleted_value, Serializable, lookup, Misses, HasDistinctEntryKeys, BTree,
  cache_set, cache_delete,
}
use onvakv.Store.Layers.{RootStore}
use onvakv.Store.Written.{lookup-Misses}
use onvakv.Rabbit.Cached.{CachedValue, value_header, held_bytes, cached_value_to_bytes, get_value}
use onvakv.Rabbit.Multi.{CacheMap, is_none, scan_entry, scan_all_entries, write_entry}

-- The first of two answers.
abbrev pub or_below : {V : Type 0} → Option V → Option V → Option V
or_below none d = d
or_below (some v) d = some v

module _ (S : Serializable) where
  -- No pointer is nil, and each value has an object that is not lent out, or it is of an empty slot.
  abbrev pub fits : Option (CachedValue S.Obj) → Bool
  fits none = false
  fits (some v) = if v.is_empty then true else if is_none v.obj then false else true

  abbrev pub all_fit : CacheMap S → Bool
  all_fit [] = true
  all_fit ((k, v) ∷ m) = fits v && all_fit m

  -- The bytes of a cached value that fits.
  unfoldable pub bytes_or_nil : Option Bytes → Bytes
  bytes_or_nil none = []
  bytes_or_nil (some b) = b

  -- What an entry of the map leaves in the cache of the trunk.
  unfoldable pub stored : Option (Option (CachedValue S.Obj)) → Option (Value S.Obj)
  stored none = none
  stored (some none) = none
  stored (some (some v)) =
      if v.is_dirty
      then some (
          if v.is_deleted
          then deleted_value
          else raw_bytes (bytes_or_nil (cached_value_to_bytes S v)))
      else none

  pub fits-bytes :
      (v : CachedValue S.Obj)
      → fits (some v) ≡ true
      → (bz : Bytes) × (cached_value_to_bytes S v ≡ some bz)
  unfolding cached_value_to_bytes get_value is_none
  fits-bytes v f = elim (Bool-cases v.is_empty) [
    | inl y ↦ (value_header S 1 v, rw y refl)
    | inr n ↦ elim (Option-cases v.obj) [
      | inl gone ↦ cc (f, n, gone)
      | inr (h, has) ↦ (value_header S 0 v ++ held_bytes S h, rw (n, has) refl)
    ]
  ]

  fits-not_dangling :
      (v : CachedValue S.Obj)
      → fits (some v) ≡ true
      → (is_none v.obj && (not v.is_deleted && not v.is_empty)) ≡ false
  unfolding is_none
  fits-not_dangling v f = ground (arith, f)

  scan_entry-dirty :
      {A : Type 0} (fn : A → Bytes → Bytes → Bool → A) (key : Bytes) (v : CachedValue S.Obj) (a : A)
      (bz : Bytes)
      → fits (some v) ≡ true
      → cached_value_to_bytes S v ≡ some bz
      → v.is_dirty ≡ true
      → scan_entry S fn key (some v) a ≡ some (fn a key bz v.is_deleted)
  unfolding scan_entry
  scan_entry-dirty fn key v a bz f e y = rw (fits-not_dangling v f, e, y) refl

  scan_entry-clean :
      {A : Type 0} (fn : A → Bytes → Bytes → Bool → A) (key : Bytes) (v : CachedValue S.Obj) (a : A)
      → fits (some v) ≡ true
      → v.is_dirty ≡ false
      → scan_entry S fn key (some v) a ≡ some a
  unfolding scan_entry
  scan_entry-clean fn key v a f n = rw (fits-not_dangling v f, n) refl

  pub stored-dirty :
      (v : CachedValue S.Obj) (bz : Bytes)
      → cached_value_to_bytes S v ≡ some bz
      → v.is_dirty ≡ true
      → stored (some (some v)) ≡ some (if v.is_deleted then deleted_value else raw_bytes bz)
  unfolding stored bytes_or_nil
  stored-dirty v bz e y = rw (stored, e, y) refl

  module _ (B : BTree (Value S.Obj)) where
    put_found :
        (c : B.Tree) (m : CacheMap S) (j k : Bytes) (o : Option (CachedValue S.Obj))
        (v : Value S.Obj)
        → Misses j m
        → stored (some o) ≡ some v
        → or_below (stored (lookup m k)) (B.get (B.set c j v) k)
          ≡ or_below (stored (lookup ((j, o) ∷ m) k)) (B.get c k)
    put_found c m j k o v a e = elim (Bool-cases (bytes_eq j k)) [
      | inl b ↦
          (let gone : lookup m k ≡ none =
              ap (lookup m) (sym (bytes_eq_sound j k b)) ∙ lookup-Misses m j a in
            rw (B.get-set c j k v, b, gone, e) (unfold stored in refl))
      | inr b ↦ rw (B.get-set c j k v, b) refl
    ]

    skip_found :
        (c : B.Tree) (m : CacheMap S) (j k : Bytes) (o : Option (CachedValue S.Obj))
        → Misses j m
        → stored (some o) ≡ none
        → or_below (stored (lookup m k)) (B.get c k)
          ≡ or_below (stored (lookup ((j, o) ∷ m) k)) (B.get c k)
    skip_found c m j k o a e = elim (Bool-cases (bytes_eq j k)) [
      | inl b ↦
          (let gone : lookup m k ≡ none =
              ap (lookup m) (sym (bytes_eq_sound j k b)) ∙ lookup-Misses m j a in
            rw (b, gone, e) (unfold stored in refl))
      | inr b ↦ rw b refl
    ]

    pub record ScannedAll (write : B.Tree → Bytes → Bytes → Bool → B.Tree) (m : CacheMap S)
        (c : B.Tree) : Type 0 where
      pub after : B.Tree
      pub done : scan_all_entries S write m c ≡ some after
      pub found : (k : Bytes) → B.get after k ≡ or_below (stored (lookup m k)) (B.get c k)

    module _ (R : RootStore S) where
      written :
          (c : B.Tree) (k bz : Bytes) (is_deleted : Bool)
          → write_entry S B R c k bz is_deleted
            ≡ B.set c k (if is_deleted then deleted_value else raw_bytes bz)
      unfolding write_entry cache_delete cache_set
      written c k bz true = refl
      written c k bz false = refl

      pub scan_all_entries-ScannedAll :
          (m : CacheMap S) (c : B.Tree)
          → HasDistinctEntryKeys m
          → all_fit m ≡ true
          → ScannedAll (write_entry S B R) m c
      unfolding scan_all_entries stored
      scan_all_entries-ScannedAll [] c d f = record { after = c; done = refl; found = λ k. refl }
      scan_all_entries-ScannedAll ((j, none) ∷ m) c d f = cc
      scan_all_entries-ScannedAll ((j, some v) ∷ m) c d f =
          (let (first, others) = both (fits (some v)) (all_fit m) f in
            let (bz, bytes) = fits-bytes v first in
            elim (Bool-cases v.is_dirty) [
              | inl y ↦
                  (let w : Value S.Obj = if v.is_deleted then deleted_value else raw_bytes bz in
                    let q = scan_all_entries-ScannedAll m (B.set c j w) d.1 others in
                    record {
                      after = q.after;
                      done =
                          ap (λ t. t >>= (λ a. scan_all_entries S (write_entry S B R) m a))
                            (scan_entry-dirty (write_entry S B R) j v c bz first bytes y
                              ∙ ap some (written c j bz v.is_deleted))
                          ∙ q.done;
                      found = λ k.
                          q.found k ∙ put_found c m j k (some v) w d.0 (stored-dirty v bz bytes y);
                    })
              | inr n ↦
                  (let q = scan_all_entries-ScannedAll m c d.1 others in
                    record {
                      after = q.after;
                      done =
                          ap (λ t. t >>= (λ a. scan_all_entries S (write_entry S B R) m a))
                            (scan_entry-clean (write_entry S B R) j v c first n)
                          ∙ q.done;
                      found = λ k. q.found k ∙ skip_found c m j k (some v) d.0 (rw n refl);
                    })
            ])
        where
          both : (a b : Bool) → (a && b) ≡ true → (a ≡ true) × (b ≡ true)
          both true b e = (refl, e)
          both false b e = cc
