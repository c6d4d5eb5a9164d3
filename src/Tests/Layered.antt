-- ===== src/Tests/Layered.antt =====
-- A transaction on small stores: store/multi.go and store/trunk.go.
use onvakv.Base.{
  true, false, none, some, List, [], ◌∷◌, ◌≡◌, refl, sym, ap, ◌∙◌, if◌then◌else◌, Bool-cases, inl,
  inr,
}
use onvakv.Base.{subst, some-injective, none-ne-some}
use onvakv.EntryFile.Encode.{has_prefix}
use onvakv.Store.Transaction.{IsQuiet}
use onvakv.Store.Prefix.{PrefixedStore, prefixed_set, prefixed_get, prefixed_set-prefixed_get}
use onvakv.ByteSlices.{bytes_eq}
use onvakv.Types.{Bytes}
use onvakv.Tests.Stores.{list_tree, byte_objects, map_root}
use onvakv.Store.Cache.{Value, raw_bytes, deleted_value}
use onvakv.Store.Layers.{
  TrunkStore, MultiStore, cached, trunk_get, trunk_has, multi_get, multi_has, multi_write_back,
}
use onvakv.Store.Written.{is_settled, multi_write_back-get}
use onvakv.Store.Transaction.{
  Write, set_bytes, delete_key, overlay, run_writes, transaction-overlay,
}

abbrev small_trunk : TrunkStore byte_objects (list_tree (Value Bytes)) map_root
small_trunk = record {
  cache = ((1 ∷ [], raw_bytes (10 ∷ [])) ∷ [], (tt, tt));
  root = λ k. if bytes_eq k (2 ∷ []) then some (20 ∷ []) else none;
  is_writing = 0;
}

abbrev small_writes : List Write
small_writes =
    set_bytes (3 ∷ []) (30 ∷ []) ∷ delete_key (2 ∷ []) ∷ set_bytes (3 ∷ []) (31 ∷ []) ∷ []

transaction_small :
    (ms : MultiStore byte_objects (list_tree (Value Bytes)) map_root) × (ts' : TrunkStore
      byte_objects
      (list_tree (Value Bytes))
      map_root)
    × (run_writes byte_objects
          (list_tree (Value Bytes))
          map_root
          (cached byte_objects (list_tree (Value Bytes)) map_root small_trunk)
          small_writes
        ≡ some ms)
    × (multi_write_back byte_objects (list_tree (Value Bytes)) map_root ms ≡ some ts')
    × ((k : Bytes)
        → trunk_get byte_objects (list_tree (Value Bytes)) map_root ts' k
          ≡ overlay small_writes k
              (trunk_get byte_objects (list_tree (Value Bytes)) map_root small_trunk k))
transaction_small =
    transaction-overlay byte_objects (list_tree (Value Bytes)) map_root small_trunk small_writes
      refl

abbrev small_multi : MultiStore byte_objects (list_tree (Value Bytes)) map_root
small_multi = record { cache = ((1 ∷ [], deleted_value) ∷ [], (tt, tt)); trunk = small_trunk }

write_back_small :
    (ts : TrunkStore byte_objects (list_tree (Value Bytes)) map_root) × (multi_write_back
        byte_objects
        (list_tree (Value Bytes))
        map_root
        small_multi
      ≡ some ts)
    × ((k : Bytes)
        → (trunk_get byte_objects (list_tree (Value Bytes)) map_root ts k
            ≡ multi_get byte_objects (list_tree (Value Bytes)) map_root small_multi k)
          × (trunk_has byte_objects (list_tree (Value Bytes)) map_root ts k
              ≡ multi_has byte_objects (list_tree (Value Bytes)) map_root small_multi k))
write_back_small =
    multi_write_back-get byte_objects (list_tree (Value Bytes)) map_root small_multi refl (refl, tt)

small_multi-IsQuiet : IsQuiet byte_objects (list_tree (Value Bytes)) map_root small_multi
small_multi-IsQuiet = record {
  idle = refl;
  settled = λ k v e. elim (Bool-cases (bytes_eq (1 ∷ []) k)) [
    | inl same ↦
        subst (λ u. is_settled u ≡ true)
          (some-injective deleted_value v
            (sym (ap (λ t. if t then some deleted_value else none) same) ∙ e))
          refl
    | inr other ↦
        absurd (none-ne-some v (sym (ap (λ t. if t then some deleted_value else none) other) ∙ e))
  ];
}

abbrev small_prefixed : PrefixedStore byte_objects (list_tree (Value Bytes)) map_root
small_prefixed = record { parent = small_multi; prefix = 7 ∷ [] }

prefixed_set_small :
    (s' : PrefixedStore byte_objects (list_tree (Value Bytes)) map_root) × (prefixed_set
        byte_objects
        (list_tree (Value Bytes))
        map_root
        small_prefixed
        (1 ∷ [])
        (5 ∷ [])
      ≡ some s')
    × ((j : Bytes)
        → prefixed_get byte_objects (list_tree (Value Bytes)) map_root s' j ≡ (
            if bytes_eq (1 ∷ []) j
            then some (some (5 ∷ []))
            else prefixed_get byte_objects (list_tree (Value Bytes)) map_root small_prefixed j))
    × ((q j : Bytes)
        → has_prefix (7 ∷ []) q ≡ false
        → has_prefix q (7 ∷ []) ≡ false
        → prefixed_get byte_objects (list_tree (Value Bytes)) map_root (record s' { prefix = q }) j
          ≡ prefixed_get byte_objects
              (list_tree (Value Bytes))
              map_root
              (record small_prefixed { prefix = q })
              j)
prefixed_set_small =
    prefixed_set-prefixed_get byte_objects (list_tree (Value Bytes)) map_root small_prefixed
      (1 ∷ []) (5 ∷ []) small_multi-IsQuiet
