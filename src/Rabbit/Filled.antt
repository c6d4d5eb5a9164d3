-- ===== src/Rabbit/Filled.antt =====
-- The slot of a new key, and the slots in front of it.
use onvakv.Base.{
  suc, ◌+◌, ◌*◌, ◌^◌, ◌<◌, true, false, Bool-cases, Option, none, some, List, [], ◌∷◌, length, All,
  ◌≡◌, inl, inr, refl, sym, ap, subst, ◌∙◌, arith, if◌then◌else◌,
}
use onvakv.ByteSlices.{bytes_eq, bytes_eq_sound, bytes_eq_refl}
use onvakv.Types.{Bytes}
use onvakv.Store.Cache.{Value, Serializable, BTree}
use onvakv.Store.Layers.{RootStore}
use onvakv.Rabbit.Cached.{Held}
use onvakv.Rabbit.Multi.{SimpleMultiStore}
use onvakv.Rabbit.Operations.{incr_passby_num}
use onvakv.Rabbit.Cells.{Cell, cells, Moved}
use onvakv.Rabbit.Counts.{times, All_imp, raise, no_raise, MayRaise, incr_passby_num-Moved}
use onvakv.Rabbit.Walk.{slot, passed}
use onvakv.Rabbit.Live.{Live, without, Absent, count, without-Absent, times-passed}
use onvakv.Rabbit.Changed.{set_Represents, times-home}
use onvakv.Rabbit.Located.{Walk-others, Absent-empty}
use onvakv.Rabbit.Represents.{Represents}
use onvakv.Rabbit.Holds.{Holds, LocatedAbsent}
use onvakv.Rabbit.Writes.{count_few, count_bound}

module _ (sha256 : Bytes → Bytes) (S : Serializable) (B : BTree (Value S.Obj))
    (R : RootStore S) where
  pub present_of_way :
      (f : Bytes → Option (Cell S.Obj)) (j key : Bytes) (ks : List Bytes)
      → f j ≡ none
      → All (λ k. (x : Cell S.Obj) × (f k ≡ some x) × (bytes_eq x.key key ≡ false)) ks
      → times j ks ≡ 0
  unfolding times
  present_of_way f j key [] e a = refl
  present_of_way f j key (k ∷ ks) e a = elim (Bool-cases (bytes_eq k j)) [
    | inl b ↦ cc (a.0.1, ap f (bytes_eq_sound k j b), e)
    | inr b ↦ rw b (omega (arith, present_of_way f j key ks e a.1))
  ]

  -- Set at a key that is not on the list, from the write of its slot on.
  module _ (s : SimpleMultiStore S B R) (es : List (Live S.Obj)) (key : Bytes) (obj : Held S.Obj)
      (h : Holds sha256 S B R s es) (a : Absent key es) (few : 100 * suc (length es) < 2 ^ 64)
      (l : LocatedAbsent sha256 S B R s key false) (c : Cell S.Obj) (s₁ : SimpleMultiStore S B R)
      (cell_key : c.key ≡ key) (cell_obj : c.obj ≡ some obj) (cell_full : c.is_empty ≡ false)
      (cell_count : c.passby_num ≡ count sha256 (slot sha256 l.depth (sha256 key)) es)
      (own : (x : Cell S.Obj)
        → cells S B R s (slot sha256 l.depth (sha256 key)) ≡ some x
        → bytes_eq x.key key ≡ true)
      (m : Moved S B R l.located.found.store
        (λ j. if bytes_eq (slot sha256 l.depth (sha256 key)) j then some c else cells S B R s j)
        s₁) where
    abbrev pub entry : Live S.Obj
    entry = record { key = key; depth = l.depth; obj = some obj }

    -- The slot of the key, and those in front of it.
    abbrev spot : Bytes
    spot = slot sha256 l.depth (sha256 key)

    abbrev front : List Bytes
    front = passed sha256 l.depth (sha256 key)

    others :
        All
          (λ k. (x : Cell S.Obj) × (cells S B R s k ≡ some x) × (bytes_eq x.key key ≡ false))
          front
    others = Walk-others sha256 (cells S B R s) key false l.depth (sha256 key) l.status l.walk

    homeless : times spot front ≡ 0
    homeless = times-home sha256 (cells S B R s) spot key front own others

    may_old :
        (j : Bytes) (o : Option (Cell S.Obj)) → cells S B R s j ≡ o → MayRaise (times j front) o
    may_old j none e = present_of_way (cells S B R s) j key front e others
    may_old j (some x) e = omega (
      arith,
      few,
      (count_bound sha256 S B R (cells S B R s) es j x h.represents e).1,
      times-passed sha256 j l.depth (sha256 key),
      l.near,
    )

    may :
        (j : Bytes) → MayRaise (times j front) (if bytes_eq spot j then some c else cells S B R s j)
    may j = elim (Bool-cases (bytes_eq spot j)) [
      | inl b ↦
          rw (b, sym (bytes_eq_sound spot j b), homeless)
            (omega
              (arith, few, cell_count, count_few sha256 S B R (cells S B R s) es spot h.represents))
      | inr b ↦ rw b (may_old j (cells S B R s j) refl)
    ]

    filled-Represents :
        (g : Bytes → Option (Cell S.Obj))
        → ((j : Bytes)
            → g j ≡ raise (times j front) (if bytes_eq spot j then some c else cells S B R s j))
        → Represents sha256 g (entry ∷ without key es)
    filled-Represents g e =
        set_Represents sha256 (cells S B R s) g es entry c (λ k. times k front) h.represents few
          l.near cell_key cell_obj cell_full
          (omega (arith, cell_count, homeless, ap (count sha256 spot) (without-Absent key es a)))
          others own
          (λ k x o full ne. Absent-empty sha256 (cells S B R s) es key k x h.represents a o full)
          (e spot
            ∙ rw (bytes_eq_refl spot) (ap (λ n. raise n (some c)) homeless ∙ no_raise (some c)))
          (λ k ne. e k ∙ ap (raise (times k front)) (rw ne refl))
          (λ k ne. may_old k (cells S B R s k) refl)
          (λ k ne. ap (λ t. times k front + count sha256 k t) (without-Absent key es a))

    pub filled :
        (s' : SimpleMultiStore S B R) × (incr_passby_num sha256 S B R
            (passed sha256 l.depth (sha256 key))
            s₁
          ≡ some s')
        × Holds sha256 S B R s' (entry ∷ without key es)
    filled =
        (let (s', done, moved) =
            incr_passby_num-Moved sha256 S B R front s₁ m.readable
              (All_imp front m.cached l.located.loaded)
              (λ j. subst (MayRaise (times j front)) (sym (m.viewed j)) (may j)) in
          (
            s',
            done,
            record {
              readable = moved.readable;
              represents =
                  filled-Represents (cells S B R s')
                    (λ j. moved.viewed j ∙ ap (raise (times j front)) (m.viewed j));
            },
          ))
