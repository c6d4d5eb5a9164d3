-- ===== src/Store/Prefix.antt =====
-- PrefixedStore of store/prefix.go: a part of a transaction's keys. Keys, values and objects are not
-- nil here; the code panics on nil ones.
use onvakv.Base.{
  Bool, false, Option, none, some, [], ◌∷◌, ◌++◌, ◌≡◌, refl, ap, ◌∙◌, if◌then◌else◌, ◌>>=◌, drop,
  length, arith,
}
use onvakv.ByteSlices.{bytes_eq}
use onvakv.Types.{Bytes}
use onvakv.EntryFile.Encode.{has_prefix}
use onvakv.Store.Cache.{Value, Serializable, BTree}
use onvakv.Store.Layers.{
  RootStore, MultiStore, multi_has, multi_get, multi_get_obj, multi_get_read_only_obj, multi_set,
  multi_set_obj, multi_delete,
}
use onvakv.Store.Transaction.{IsQuiet, multi_set-Wrote}

unfoldable pub clone_append : Bytes → Bytes → Bytes
clone_append bz tail = bz ++ tail

unfoldable pub strip_prefix : Bytes → Bytes → Option Bytes
strip_prefix key prefix = if has_prefix key prefix then some (drop (length prefix) key) else none

module _ (S : Serializable) (B : BTree (Value S.Obj)) (R : RootStore S) where
  pub record PrefixedStore : Type 0 where
    pub parent : MultiStore S B R
    pub prefix : Bytes

  unfoldable pub prefixed_key : PrefixedStore → Bytes → Bytes
  prefixed_key s key = clone_append s.prefix key

  unfoldable pub prefixed_get : PrefixedStore → Bytes → Option (Option Bytes)
  prefixed_get s key = multi_get S B R s.parent (prefixed_key s key)

  unfoldable pub prefixed_has : PrefixedStore → Bytes → Option Bool
  prefixed_has s key = multi_has S B R s.parent (prefixed_key s key)

  unfoldable pub prefixed_get_obj : PrefixedStore → Bytes → Option (PrefixedStore × Option S.Obj)
  prefixed_get_obj s key = do
    (ms, o) ← multi_get_obj S B R s.parent (prefixed_key s key)
    some (record s { parent = ms }, o)

  unfoldable pub prefixed_get_read_only_obj :
      PrefixedStore → Bytes → Option (PrefixedStore × Option S.Obj)
  prefixed_get_read_only_obj s key = do
    (ms, o) ← multi_get_read_only_obj S B R s.parent (prefixed_key s key)
    some (record s { parent = ms }, o)

  unfoldable pub prefixed_set : PrefixedStore → Bytes → Bytes → Option PrefixedStore
  prefixed_set s key value = do
    ms ← multi_set S B R s.parent (prefixed_key s key) value
    some (record s { parent = ms })

  unfoldable pub prefixed_set_obj : PrefixedStore → Bytes → S.Obj → Option PrefixedStore
  prefixed_set_obj s key obj = do
    ms ← multi_set_obj S B R s.parent (prefixed_key s key) obj
    some (record s { parent = ms })

  unfoldable pub prefixed_delete : PrefixedStore → Bytes → Option PrefixedStore
  prefixed_delete s key = do
    ms ← multi_delete S B R s.parent (prefixed_key s key)
    some (record s { parent = ms })

-- Keys with prefixes of which neither begins with the other differ.
bytes_eq-append :
    (p q k j : Bytes)
    → has_prefix p q ≡ false
    → has_prefix q p ≡ false
    → bytes_eq (p ++ k) (q ++ j) ≡ false
unfolding has_prefix bytes_eq
bytes_eq-append [] [] k j e f = cc
bytes_eq-append [] (y ∷ q) k j e f = cc
bytes_eq-append (x ∷ p) [] k j e f = cc
bytes_eq-append (x ∷ p) (y ∷ q) k j e f = ground (arith, e, f, bytes_eq-append p q k j)

bytes_eq-append_same : (p k j : Bytes) → bytes_eq (p ++ k) (p ++ j) ≡ bytes_eq k j
unfolding bytes_eq
bytes_eq-append_same [] k j = refl
bytes_eq-append_same (x ∷ p) k j = ground (arith, bytes_eq-append_same p k j)

module _ (S : Serializable) (B : BTree (Value S.Obj)) (R : RootStore S) where
  -- On a transaction with no object lent out and an idle trunk, Set through a prefix succeeds; then Get
  -- through the prefix answers the value for the key and what it answered before for other keys, and
  -- Get through a prefix that neither begins with this one nor begins it answers as before.
  pub prefixed_set-prefixed_get :
      (s : PrefixedStore S B R) (key value : Bytes)
      → IsQuiet S B R s.parent
      → (s' : PrefixedStore S B R) × (prefixed_set S B R s key value ≡ some s')
        × ((j : Bytes)
            → prefixed_get S B R s' j
              ≡ (if bytes_eq key j then some (some value) else prefixed_get S B R s j))
        × ((q j : Bytes)
            → has_prefix s.prefix q ≡ false
            → has_prefix q s.prefix ≡ false
            → prefixed_get S B R (record s' { prefix = q }) j
              ≡ prefixed_get S B R (record s { prefix = q }) j)
  unfolding prefixed_set prefixed_get prefixed_key clone_append
  prefixed_set-prefixed_get s key value q =
      let (ms, done, w) = multi_set-Wrote S B R s.parent (s.prefix ++ key) value q in
      (
        record s { parent = ms },
        rw done refl,
        λ j.
            w.answers (s.prefix ++ j)
            ∙ ap (λ t. if t then some (some value) else multi_get S B R s.parent (s.prefix ++ j))
                (bytes_eq-append_same s.prefix key j),
        λ p j e f.
            w.answers (p ++ j)
            ∙ ap (λ t. if t then some (some value) else multi_get S B R s.parent (p ++ j))
                (bytes_eq-append s.prefix p key j e f),
      )
