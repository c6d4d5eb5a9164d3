-- ===== src/Rabbit/Holds.antt =====
-- A rabbit store that holds keys, and find on it.
use onvakv.Base.{
  ℕ, ◌<◌, Bool, true, false, Bool-cases, Option, none, some, List, [], ◌∷◌, ◌≡◌, inl, inr, refl, ap,
  subst, ◌∙◌, if◌then◌else◌,
}
use onvakv.ByteSlices.{bytes_eq, bytes_eq_sound, bytes_eq_refl, bytes_eq_symm}
use onvakv.Types.{Bytes}
use onvakv.Store.Cache.{Value, Serializable, BTree}
use onvakv.Store.Layers.{RootStore}
use onvakv.Rabbit.Cached.{Held, CachedValue}
use onvakv.Rabbit.Multi.{SimpleMultiStore}
use onvakv.Rabbit.Operations.{Status, exists, is_exists}
use onvakv.Rabbit.Cells.{Cell, is_some, cells, Points, IsReadable}
use onvakv.Rabbit.Walk.{slot, Walk, Located, Walk-Located}
use onvakv.Rabbit.Live.{Live, without, Absent, HasDistinctKeys, Member, All_Member, Absent-without}
use onvakv.Rabbit.Represents.{IsPlaced, Represents}
use onvakv.Rabbit.Located.{has_free, has_free-Walk, Walk-end, Member-Walk, Absent-is_exists}

module _ {O : Type 0} where
  -- What a key holds: none where it is not on the list, and none inside where its object is lent out.
  unfoldable pub content : List (Live O) → Bytes → Option (Option (Held O))
  content [] key = none
  content (e ∷ es) key = if bytes_eq e.key key then some e.obj else content es key

  pub content-Absent : (es : List (Live O)) (key : Bytes) → Absent key es → content es key ≡ none
  unfolding content
  content-Absent [] key a = refl
  content-Absent (e ∷ es) key a = rw a.0 (content-Absent es key a.1)

  pub content-Member :
      (es : List (Live O)) (e : Live O)
      → HasDistinctKeys es
      → Member e es
      → content es e.key ≡ some e.obj
  unfolding content
  content-Member [] e d m = absurd m
  content-Member (x ∷ es) e d (inl s) =
      subst (λ y. content (x ∷ es) y.key ≡ some y.obj) s (rw (bytes_eq_refl x.key) refl)
  content-Member (x ∷ es) e d (inr m) =
      rw (bytes_eq_symm x.key e.key ∙ All_Member (λ y. bytes_eq y.key x.key ≡ false) es e m d.0)
        (content-Member es e d.1 m)

  content-without_ne :
      (es : List (Live O)) (key j : Bytes)
      → bytes_eq key j ≡ false
      → content (without key es) j ≡ content es j
  unfolding content without
  content-without_ne [] key j ne = refl
  content-without_ne (e ∷ es) key j ne = elim (Bool-cases (bytes_eq e.key key)) [
    | inl b ↦
        rw (b, ap (λ t. bytes_eq t j) (bytes_eq_sound e.key key b) ∙ ne)
          (content-without_ne es key j ne)
    | inr b ↦
        rw b (ap (λ t. if bytes_eq e.key j then some e.obj else t) (content-without_ne es key j ne))
  ]

  pub content-without :
      (es : List (Live O)) (key j : Bytes)
      → content (without key es) j ≡ (if bytes_eq key j then none else content es j)
  content-without es key j = elim (Bool-cases (bytes_eq key j)) [
    | inl b ↦
        subst (λ i. content (without key es) i ≡ (if bytes_eq key i then none else content es i))
          (bytes_eq_sound key j b)
          (rw (bytes_eq_refl key) (content-Absent (without key es) key (Absent-without key es)))
    | inr b ↦ rw b (content-without_ne es key j b)
  ]

module _ (sha256 : Bytes → Bytes) (S : Serializable) (B : BTree (Value S.Obj))
    (R : RootStore S) where
  -- The store is readable, and its cells represent the keys of the list.
  pub record Holds (s : SimpleMultiStore S B R) (es : List (Live S.Obj)) : Type 0 where
    pub readable : IsReadable S B R s
    pub represents : Represents sha256 (cells S B R s) es

  -- Among the short keys that find tries there is one that is free or that has the key.
  unfoldable pub has_room : SimpleMultiStore S B R → Bytes → Bool
  has_room s key = has_free sha256 100 (cells S B R s) key (sha256 key)

  pub Points-some :
      (cv : Option (CachedValue S.Obj)) (c : Cell S.Obj) (o : Option (Cell S.Obj))
      → o ≡ some c
      → Points S B R cv o
      → is_some S cv ≡ true
  Points-some none c o e p = cc
  Points-some (some cv) c o e p = refl

  -- find at a key of the list.
  pub find-Member :
      (s : SimpleMultiStore S B R) (es : List (Live S.Obj)) (e : Live S.Obj) (early_exit : Bool)
      → Holds s es
      → Member e es
      → Located sha256 S B R 100 s e.key early_exit e.depth (sha256 e.key) exists
  find-Member s es e early_exit h m =
      Walk-Located sha256 S B R 100 s e.key early_exit e.depth (sha256 e.key) exists h.readable
        (All_Member (IsPlaced sha256 (cells S B R s)) es e m h.represents.placed).near
        (Member-Walk sha256 (cells S B R s) es e early_exit h.represents m)

  -- find at a key that is not on the list.
  pub record LocatedAbsent (s : SimpleMultiStore S B R) (key : Bytes) (early_exit : Bool)
      : Type 0 where
    pub depth : ℕ
    pub near : depth < 100
    pub status : Status
    pub not_exists : is_exists status ≡ false
    pub walk : Walk sha256 (cells S B R s) key early_exit depth (sha256 key) status
    pub located : Located sha256 S B R 100 s key early_exit depth (sha256 key) status

  pub find-Absent :
      (s : SimpleMultiStore S B R) (es : List (Live S.Obj)) (key : Bytes) (early_exit : Bool)
      → Holds s es
      → Absent key es
      → has_room s key ≡ true
      → LocatedAbsent s key early_exit
  unfolding has_room
  find-Absent s es key early_exit h a room =
      (let (d, st, l, w) =
          has_free-Walk sha256 100 (cells S B R s) key early_exit (sha256 key) room in
        record {
          depth = d;
          near = l;
          status = st;
          not_exists =
              Absent-is_exists sha256 (cells S B R s) es key early_exit (slot sha256 d (sha256 key))
                st (cells S B R s (slot sha256 d (sha256 key))) h.represents a refl
                (Walk-end sha256 (cells S B R s) key early_exit d (sha256 key) st w);
          walk = w;
          located = Walk-Located sha256 S B R 100 s key early_exit d (sha256 key) st h.readable l w;
        })
