-- ===== src/Tests/Stores.antt =====
-- Small stores on which the theorems on stores are applied: a tree that is a list, and a root that is a
-- function.
use onvakv.Base.{
  true, false, Option, none, some, List, [], ◌∷◌, ◌≡◌, refl, sym, ap, ◌∙◌, if◌then◌else◌,
  Bool-cases, inl, inr,
}
use onvakv.ByteSlices.{bytes_eq, bytes_eq_sound, bytes_eq_symm}
use onvakv.Types.{Bytes}
use onvakv.Store.Cache.{Serializable, lookup, Misses, HasDistinctEntryKeys, BTree}
use onvakv.Store.Layers.{RootStore}
use onvakv.Store.Written.{lookup-Misses}

unfoldable pub remove : {V : Type 0} → Bytes → List (Bytes × V) → List (Bytes × V)
remove k [] = []
remove k ((j, v) ∷ kvs) = if bytes_eq k j then remove k kvs else (j, v) ∷ remove k kvs

pub Misses-remove :
    {V : Type 0} (k : Bytes) (kvs : List (Bytes × V)) (i : Bytes)
    → Misses i kvs
    → Misses i (remove k kvs)
unfolding remove
Misses-remove k [] i m = tt
Misses-remove k ((j, v) ∷ kvs) i m = elim (Bool-cases (bytes_eq k j)) [
  | inl e ↦ rw e (Misses-remove k kvs i m.1)
  | inr e ↦ rw e (m.0, Misses-remove k kvs i m.1)
]

pub removed : {V : Type 0} (k : Bytes) (kvs : List (Bytes × V)) → Misses k (remove k kvs)
unfolding remove
removed k [] = tt
removed k ((j, v) ∷ kvs) = elim (Bool-cases (bytes_eq k j)) [
  | inl e ↦ rw e (removed k kvs)
  | inr e ↦ rw e (bytes_eq_symm j k ∙ e, removed k kvs)
]

pub HasDistinctEntryKeys-remove :
    {V : Type 0} (k : Bytes) (kvs : List (Bytes × V))
    → HasDistinctEntryKeys kvs
    → HasDistinctEntryKeys (remove k kvs)
unfolding remove
HasDistinctEntryKeys-remove k [] d = tt
HasDistinctEntryKeys-remove k ((j, v) ∷ kvs) d = elim (Bool-cases (bytes_eq k j)) [
  | inl e ↦ rw e (HasDistinctEntryKeys-remove k kvs d.1)
  | inr e ↦ rw e (Misses-remove k kvs j d.0, HasDistinctEntryKeys-remove k kvs d.1)
]

pub lookup-remove_ne :
    {V : Type 0} (k j : Bytes) (kvs : List (Bytes × V))
    → bytes_eq k j ≡ false
    → lookup (remove k kvs) j ≡ lookup kvs j
unfolding remove
lookup-remove_ne k j [] ne = refl
lookup-remove_ne k j ((i, v) ∷ kvs) ne = elim (Bool-cases (bytes_eq k i)) [
  | inl e ↦
      let other : bytes_eq i j ≡ false = ap (λ t. bytes_eq t j) (sym (bytes_eq_sound k i e)) ∙ ne in
      rw (e, other) (lookup-remove_ne k j kvs ne)
  | inr e ↦ rw e (ap (λ t. if bytes_eq i j then some v else t) (lookup-remove_ne k j kvs ne))
]

pub lookup-remove :
    {V : Type 0} (k j : Bytes) (kvs : List (Bytes × V))
    → lookup (remove k kvs) j ≡ (if bytes_eq k j then none else lookup kvs j)
lookup-remove k j kvs = elim (Bool-cases (bytes_eq k j)) [
  | inl e ↦
      ap (lookup (remove k kvs)) (sym (bytes_eq_sound k j e))
      ∙ lookup-Misses (remove k kvs) k (removed k kvs)
      ∙ rw e refl
  | inr e ↦ lookup-remove_ne k j kvs e ∙ rw e refl
]

-- A tree as a list of entries with distinct keys.
abbrev pub list_tree : (V : Type 0) → BTree V
list_tree V = record {
  Tree = (kvs : List (Bytes × V)) × HasDistinctEntryKeys kvs;
  tree_new = ([], tt);
  get = λ t k. lookup t.0 k;
  set = λ t k v. ((k, v) ∷ remove k t.0, (removed k t.0, HasDistinctEntryKeys-remove k t.0 t.1));
  delete = λ t k. (remove k t.0, HasDistinctEntryKeys-remove k t.0 t.1);
  entries = λ t. t.0;
  get-tree_new = λ k. refl;
  get-set = λ t k j v. elim (Bool-cases (bytes_eq k j)) [
    | inl e ↦ rw e refl
    | inr e ↦ rw e (lookup-remove_ne k j t.0 e)
  ];
  get-delete = λ t k j. lookup-remove k j t.0;
  get-entries = λ t k. refl;
  entries-HasDistinctEntryKeys = λ t. t.1;
}

abbrev pub byte_objects : Serializable
byte_objects = record { Obj = Bytes; to_bytes = λ b. b; from_bytes = λ b. b; deep_copy = λ b. b }

-- A root as a function.
abbrev pub map_root : RootStore byte_objects
map_root = record {
  Root = Bytes → Option Bytes;
  get = λ r k. r k;
  has = λ r k. elim (r k) [ none ↦ false | some v ↦ true ];
  get_obj_copy = λ r k. (r, r k);
  get_read_only_obj = λ r k. (r, r k);
  prepare_for_update = λ r k. r;
  prepare_for_deletion = λ r k. r;
  begin_write = λ r. r;
  set = λ r k v j. if bytes_eq k j then some v else r j;
  set_obj = λ r k v j. if bytes_eq k j then some v else r j;
  delete = λ r k j. if bytes_eq k j then none else r j;
  end_write = λ r. r;
  get-prepare_for_update = λ r k j. refl;
  get-prepare_for_deletion = λ r k j. refl;
}
