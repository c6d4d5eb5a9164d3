-- ===== src/Rabbit/Deleted.antt =====
-- Delete at a key that the store holds.
use onvakv.Base.{
  ◌^◌, ◌<◌, true, false, Bool-cases, Option, none, some, List, ◌≡◌, inl, inr, refl, sym, ap, subst,
  ◌∙◌, arith, if◌then◌else◌, ◌==◌,
}
use onvakv.ByteSlices.{bytes_eq, bytes_eq_sound, bytes_eq_refl}
use onvakv.Types.{Bytes}
use onvakv.Store.Cache.{Value, Serializable, BTree}
use onvakv.Store.Layers.{RootStore}
use onvakv.Rabbit.Cached.{CachedValue}
use onvakv.Rabbit.Multi.{SimpleMultiStore}
use onvakv.Rabbit.Operations.{is_exists, find, emptied, delete_found, rabbit_delete}
use onvakv.Rabbit.Cells.{Cell, cell_of, kept_cell, cells}
use onvakv.Rabbit.Counts.{times, All_imp, lower, MayLower, decr_passby_num-Moved}
use onvakv.Rabbit.Live.{Live, without, Member, All_Member, home, way, times-le-count}
use onvakv.Rabbit.Represents.{IsPlaced}
use onvakv.Rabbit.Changed.{times-home, IsPlaced-own}
use onvakv.Rabbit.Vacated.{delete_Represents, vacated}
use onvakv.Rabbit.Holds.{Holds, find-Member}
use onvakv.Rabbit.Writes.{Located-path, count_bound, replace}
use onvakv.Rabbit.Filled.{present_of_way}

module _ (sha256 : Bytes → Bytes) (S : Serializable) (B : BTree (Value S.Obj))
    (R : RootStore S) where
  emptied-vacated :
      (cv : CachedValue S.Obj)
      → cv.is_deleted ≡ false
      → kept_cell (emptied sha256 S B R cv) ≡ vacated sha256 (cell_of cv)
  unfolding emptied
  emptied-vacated cv alive = elim (Bool-cases (cv.passby_num == 0)) [
    | inl z ↦ rw (emptied, z) refl
    | inr z ↦ rw (emptied, z, alive) refl
  ]

  may_stay_vacated : (c : Cell S.Obj) → c.passby_num < 2 ^ 64 → MayLower 0 (vacated sha256 c)
  may_stay_vacated c l = elim (Bool-cases (c.passby_num == 0)) [
    | inl z ↦ rw z refl
    | inr z ↦ rw z (omega arith, l)
  ]

  may_vacate :
      (s : SimpleMultiStore S B R) (es : List (Live S.Obj)) (e : Live S.Obj)
      → Holds sha256 S B R s es
      → Member e es
      → (p : IsPlaced sha256 (cells S B R s) e) → times (home sha256 e) (way sha256 e) ≡ 0
      → (j : Bytes)
      → MayLower
          (times j (way sha256 e))
          (if bytes_eq (home sha256 e) j then vacated sha256 p.cell else cells S B R s j)
  may_vacate s es e h m p z j = elim (Bool-cases (bytes_eq (home sha256 e) j)) [
    | inl b ↦
        rw (b, sym (bytes_eq_sound (home sha256 e) j b), z)
          (may_stay_vacated p.cell (
            omega (
              arith,
              h.represents.few,
              (count_bound sha256 S B R (cells S B R s) es (home sha256 e) p.cell h.represents
                  p.here).1,
            )))
    | inr b ↦ rw b (may_old j (cells S B R s j) refl)
  ]
    where
      may_old :
          (j : Bytes) (o : Option (Cell S.Obj))
          → cells S B R s j ≡ o
          → MayLower (times j (way sha256 e)) o
      may_old j none i =
          present_of_way sha256 S B R (cells S B R s) j e.key (way sha256 e) i p.others
      may_old j (some c) i =
          (let q = count_bound sha256 S B R (cells S B R s) es j c h.represents i in
            (
              omega (arith, q.0, times-le-count sha256 j es e m),
              omega (arith, h.represents.few, q.1),
            ))

  -- Delete at a key of the list takes it off.
  pub delete-Member :
      (s : SimpleMultiStore S B R) (es : List (Live S.Obj)) (e : Live S.Obj)
      → Holds sha256 S B R s es
      → Member e es
      → (s' : SimpleMultiStore S B R) × (rabbit_delete sha256 S B R s e.key ≡ some s')
        × Holds sha256 S B R s' (without e.key es)
  unfolding rabbit_delete find delete_found is_exists
  delete-Member s es e h m =
      (let q = find-Member sha256 S B R s es e true h m in
        let p = All_Member (IsPlaced sha256 (cells S B R s)) es e m h.represents.placed in
        let path = Located-path sha256 S B R q in
        let x =
          replace sha256 S B R q p.cell p.here (emptied sha256 S B R) (vacated sha256)
            emptied-vacated in
        let (s', done, moved) =
          decr_passby_num-Moved sha256 S B R (way sha256 e) x.after x.moved.readable
            (All_imp (way sha256 e) x.moved.cached q.loaded)
            (λ j. subst (MayLower (times j (way sha256 e))) (sym (x.moved.viewed j)) (
              may_vacate s es e h m p
                (times-home sha256 (cells S B R s) (home sha256 e) e.key (way sha256 e)
                  (IsPlaced-own sha256 (cells S B R s) e p) p.others)
                j)) in
        (
          s',
          rw (q.done, path.0, path.1, q.status, x.got, x.done) done,
          record {
            readable = moved.readable;
            represents =
                delete_Represents sha256 (cells S B R s) (cells S B R s') es e h.represents m p
                  (moved.viewed (home sha256 e)
                    ∙ ap (lower (times (home sha256 e) (way sha256 e))) {y = vacated sha256 p.cell}
                        (x.moved.viewed (home sha256 e) ∙ rw (bytes_eq_refl (home sha256 e)) refl)
                    ∙ ap (λ n. lower n (vacated sha256 p.cell))
                        (times-home sha256 (cells S B R s) (home sha256 e) e.key (way sha256 e)
                          (IsPlaced-own sha256 (cells S B R s) e p) p.others))
                  (λ k ne.
                    moved.viewed k
                    ∙ ap (lower (times k (way sha256 e))) (x.moved.viewed k ∙ rw ne refl));
          },
        ))
