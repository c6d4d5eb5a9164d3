-- ===== src/Rabbit/Reloaded.antt =====
-- A cached value written and read back.
use onvakv.Base.{
  ℕ, ◌+◌, ◌%◌, ◌^◌, ◌<◌, Bool, true, false, Bool-cases, Option, none, some, [], ◌∷◌, ◌++◌,
  append_assoc, append-nil, length, length-append, take, drop, take-append, drop-append, ltb, ◌≡◌,
  ◌⊎◌, inl, inr, refl, sym, ap, ◌∙◌, arith, if◌then◌else◌,
}
use onvakv.Base.Words.{put_le, get_le, length-put_le, get_le-put_le_32, get_le-put_le_64}
use onvakv.Types.{Bytes}
use onvakv.Store.Cache.{Serializable}
use onvakv.Rabbit.Cached.{
  Held, raw, CachedValue, held_bytes, get_value, value_header, cached_value_to_bytes,
  value_with_marker, parse_cached_value, bytes_to_cached_value,
}

module _ (S : Serializable) where
  abbrev pub raw_held : Option (Held S.Obj) → Option (Held S.Obj)
  raw_held none = none
  raw_held (some h) = some (raw (held_bytes S h))

  abbrev pub raw_obj : Bool → Option (Held S.Obj) → Option (Held S.Obj)
  raw_obj is_empty obj = if is_empty then none else raw_held obj

  -- What is left of a cached value that is read back: the object as its bytes, and nothing in an empty slot.
  unfoldable pub reloaded : CachedValue S.Obj → CachedValue S.Obj
  reloaded v = record {
    passby_num = v.passby_num;
    key = v.key;
    obj = raw_obj v.is_empty v.obj;
    is_empty = v.is_empty;
    is_deleted = false;
    is_dirty = false;
  }

  -- The two numbers, the key and the value behind the marker.
  abbrev layout : ℕ → Bytes → Bytes → Bytes
  layout passby_num key value =
      put_le 8 passby_num ++ (put_le 4 (length key % 2 ^ 32) ++ (key ++ value))

  parse-layout :
      (marker passby_num : ℕ) (key value : Bytes)
      → passby_num < 2 ^ 64
      → length key < 2 ^ 32
      → bytes_to_cached_value S (marker ∷ layout passby_num key value)
        ≡ some (value_with_marker S marker passby_num key value)
  unfolding bytes_to_cached_value parse_cached_value
  parse-layout marker passby_num key value p k =
      (let l₈ = length-put_le 8 passby_num in
        let l₄ = length-put_le 4 (length key % 2 ^ 32) in
        let rest = put_le 4 (length key % 2 ^ 32) ++ (key ++ value) in
        let all : length (layout passby_num key value) ≡ 12 + length key + length value = omega (
          arith,
          l₈,
          l₄,
          length-append (put_le 8 passby_num) rest,
          length-append (put_le 4 (length key % 2 ^ 32)) (key ++ value),
          length-append key value,
        ) in
        let long : ltb (length (marker ∷ layout passby_num key value)) 13 ≡ false =
          ground (arith, all) in
        let first : take 8 (layout passby_num key value) ≡ put_le 8 passby_num =
          take-append (put_le 8 passby_num) rest 8 (sym l₈) in
        let second : drop 8 (layout passby_num key value) ≡ rest =
          drop-append (put_le 8 passby_num) rest 8 (sym l₈) in
        let third : take 4 rest ≡ put_le 4 (length key % 2 ^ 32) =
          take-append (put_le 4 (length key % 2 ^ 32)) (key ++ value) 4 (sym l₄) in
        let fourth : drop 12 (layout passby_num key value) ≡ key ++ value =
          ap (drop 12) (
            sym
              (append_assoc (put_le 8 passby_num) (put_le 4 (length key % 2 ^ 32)) (key ++ value)))
          ∙ drop-append (put_le 8 passby_num ++ put_le 4 (length key % 2 ^ 32)) (key ++ value) 12 (
              omega (
                arith,
                l₈,
                l₄,
                length-append (put_le 8 passby_num) (put_le 4 (length key % 2 ^ 32)),
              )) in
        let number : get_le (put_le 4 (length key % 2 ^ 32)) ≡ length key =
          get_le-put_le_32 (length key % 2 ^ 32) (omega arith) ∙ omega (arith, k) in
        let enough : ltb (length (key ++ value)) (length key) ≡ false =
          ground (arith, length-append key value) in
        rw
          (
            long,
            first,
            second,
            third,
            fourth,
            number,
            enough,
            get_le-put_le_64 passby_num p,
            take-append key value (length key) refl,
            drop-append key value (length key) refl,
          )
          refl)

  header-layout :
      (passby_num : ℕ) (key value : Bytes)
      → ((put_le 8 passby_num ++ put_le 4 (length key % 2 ^ 32)) ++ key) ++ value
        ≡ layout passby_num key value
  header-layout passby_num key value =
      append_assoc (put_le 8 passby_num ++ put_le 4 (length key % 2 ^ 32)) key value
      ∙ append_assoc (put_le 8 passby_num) (put_le 4 (length key % 2 ^ 32)) (key ++ value)

  with_object :
      (v : CachedValue S.Obj)
      → (v.is_empty ≡ true) ⊎ ((h : Held S.Obj) × (v.obj ≡ some h))
      → v.is_empty ≡ false
      → (h : Held S.Obj) × (v.obj ≡ some h)
  with_object v (inl y) n = cc
  with_object v (inr has) n = has

  -- A cached value whose passbyNum has 64 bits and whose key is shorter than 2^32, of an empty slot or with an
  -- object that is not lent out, is written by ToBytes without a panic, and BytesToCachedValue gives it back
  -- with its object as bytes, without the object where the slot is empty, not deleted and not dirty.
  pub cached_value_to_bytes-bytes_to_cached_value :
      (v : CachedValue S.Obj)
      → v.passby_num < 2 ^ 64
      → length v.key < 2 ^ 32
      → (v.is_empty ≡ true) ⊎ ((h : Held S.Obj) × (v.obj ≡ some h))
      → (bz : Bytes) × (cached_value_to_bytes S v ≡ some bz)
        × (bytes_to_cached_value S bz ≡ some (reloaded v))
  unfolding cached_value_to_bytes value_header reloaded get_value value_with_marker
  cached_value_to_bytes-bytes_to_cached_value v p k o = elim (Bool-cases v.is_empty) [
    | inl y ↦ (
      1 ∷ layout v.passby_num v.key [],
      rw y (
          ap (λ t. some (1 ∷ t))
            (sym (append-nil ((put_le 8 v.passby_num ++ put_le 4 (length v.key % 2 ^ 32)) ++ v.key))
              ∙ header-layout v.passby_num v.key [])),
      parse-layout 1 v.passby_num v.key [] p k ∙ rw (value_with_marker, y) refl,
    )
    | inr n ↦
        (let (h, has) = with_object v o n in
          (
            0 ∷ layout v.passby_num v.key (held_bytes S h),
            rw (n, has)
                (ap (λ t. some (0 ∷ t)) (header-layout v.passby_num v.key (held_bytes S h))),
            parse-layout 0 v.passby_num v.key (held_bytes S h) p k
                ∙ rw (value_with_marker, n, has) refl,
          ))
  ]
