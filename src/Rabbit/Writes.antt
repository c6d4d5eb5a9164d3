-- ===== src/Rabbit/Writes.antt =====
-- Set at a key that a rabbit store holds.
use onvakv.Base.{
  ℕ, suc, ◌*◌, ◌^◌, ◌≤◌, ◌<◌, Bool, false, Bool-cases, Option, none, some, some-injective, List, [],
  ◌∷◌, length, All, ◌≡◌, inl, inr, refl, sym, ap, subst, ◌∙◌, arith, if◌then◌else◌,
}
use onvakv.ByteSlices.{bytes_eq, bytes_eq_sound, bytes_eq_refl}
use onvakv.Types.{Bytes}
use onvakv.Store.Cache.{Value, Serializable, BTree}
use onvakv.Store.Layers.{RootStore}
use onvakv.Rabbit.Cached.{Held, CachedValue}
use onvakv.Rabbit.Multi.{SimpleMultiStore, must_get_cached_value, set_cached_value}
use onvakv.Rabbit.Operations.{Status, last_of, init_of, find, set_found, set_helper}
use onvakv.Rabbit.Cells.{Cell, cell_of, kept_cell, cells, Moved}
use onvakv.Rabbit.Fetched.{must_get_cached_value-eq, set_cached_value-Moved}
use onvakv.Rabbit.Counts.{no_raise, MayRaise}
use onvakv.Rabbit.Walk.{slot, passed, Located, last_of-append, init_of-append, Moved-same}
use onvakv.Rabbit.Live.{
  Live, without, Member, Any-Member, Member-eq, All_Member, home, count, count-without,
  count-le-length,
}
use onvakv.Rabbit.Represents.{IsPlaced, IsCounted, Represents}
use onvakv.Rabbit.Changed.{set_Represents, IsPlaced-own}
use onvakv.Rabbit.Holds.{Holds, Points-some, find-Member}

module _ (sha256 : Bytes → Bytes) (S : Serializable) (B : BTree (Value S.Obj))
    (R : RootStore S) where
  -- The last short key of the path that find gives, and those in front of it.
  pub Located-path :
      {s : SimpleMultiStore S B R} {key h : Bytes} {early_exit : Bool} {d : ℕ} {st : Status}
      (q : Located sha256 S B R 100 s key early_exit d h st)
      → (last_of q.found.path ≡ some (slot sha256 d h)) × (init_of q.found.path ≡ passed sha256 d h)
  Located-path {h = h} {d = d} q = (
    ap last_of q.path ∙ last_of-append (passed sha256 d h) (slot sha256 d h),
    ap init_of q.path ∙ init_of-append (passed sha256 d h) (slot sha256 d h),
  )

  depths :
      (f : Bytes → Option (Cell S.Obj)) (es : List (Live S.Obj))
      → All (IsPlaced sha256 f) es
      → All (λ e. e.depth < 100) es
  depths f [] a = tt
  depths f (x ∷ es) a = (a.0.near, depths f es a.1)

  pub count_few :
      (f : Bytes → Option (Cell S.Obj)) (es : List (Live S.Obj)) (k : Bytes)
      → Represents sha256 f es
      → count sha256 k es ≤ 100 * length es
  count_few f es k r = count-le-length sha256 k es (depths f es r.placed)

  -- The count of a cell, and its bound.
  pub count_bound :
      (f : Bytes → Option (Cell S.Obj)) (es : List (Live S.Obj)) (k : Bytes) (c : Cell S.Obj)
      → Represents sha256 f es
      → f k ≡ some c
      → (c.passby_num ≡ count sha256 k es) × (c.passby_num ≤ 100 * length es)
  count_bound f es k c r h =
      (let counted : IsCounted sha256 k (some c) (count sha256 k es) es =
          subst (λ o. IsCounted sha256 k o (count sha256 k es) es) h (r.slots k) in
        (counted.0, omega (arith, counted.0, count_few f es k r)))

  -- The slot of a key is the only one that holds it.
  alone_of_Member :
      (f : Bytes → Option (Cell S.Obj)) (es : List (Live S.Obj)) (e : Live S.Obj)
      → Represents sha256 f es
      → Member e es
      → (k : Bytes) (x : Cell S.Obj) → f k ≡ some x
      → x.is_empty ≡ false
      → bytes_eq (home sha256 e) k ≡ false
      → bytes_eq x.key e.key ≡ false
  alone_of_Member f es e r m k x h full ne =
      (let counted : IsCounted sha256 k (some x) (count sha256 k es) es =
          subst (λ o. IsCounted sha256 k o (count sha256 k es) es) h (r.slots k) in
        let (y, my, q) = Any-Member es (counted.2 full) in
        elim (Bool-cases (bytes_eq x.key e.key)) [
          | inl b ↦
              (let same = Member-eq es y e r.distinct my m (q.0 ∙ bytes_eq_sound x.key e.key b) in
                cc
                  (ne, ap (λ t. bytes_eq t k) (sym (ap (home sha256) same) ∙ q.1), bytes_eq_refl k))
          | inr b ↦ b
        ])

  -- A value that is written after find, as a change of the cells that find has met.
  pub set-Located :
      {s : SimpleMultiStore S B R} {key h : Bytes} {early_exit : Bool} {d : ℕ} {st : Status}
      (q : Located sha256 S B R 100 s key early_exit d h st) (k : Bytes) (cv : CachedValue S.Obj)
      → (after : SimpleMultiStore S B R) × (set_cached_value S B R q.found.store k cv ≡ some after)
        × Moved S B R q.found.store
            (λ j. if bytes_eq k j then kept_cell cv else cells S B R s j)
            after
  set-Located {s = s} q k cv =
      (let (after, done, moved) =
          set_cached_value-Moved S B R q.found.store k cv q.moved.readable in
        (
          after,
          done,
          Moved-same S B R (λ j. if bytes_eq k j then kept_cell cv else cells S B R q.found.store j)
              (λ j. if bytes_eq k j then kept_cell cv else cells S B R s j) moved
              (λ j. ap (λ x. if bytes_eq k j then kept_cell cv else x) (q.moved.viewed j)),
        ))

  module _ {s : SimpleMultiStore S B R} {key h : Bytes} {early_exit : Bool} {d : ℕ} {st : Status}
      (q : Located sha256 S B R 100 s key early_exit d h st) (c : Cell S.Obj)
      (here : cells S B R s (slot sha256 d h) ≡ some c)
      (change : CachedValue S.Obj → CachedValue S.Obj) (to : Cell S.Obj → Option (Cell S.Obj))
      (changes : (cv : CachedValue S.Obj)
        → cv.is_deleted ≡ false
        → kept_cell (change cv) ≡ to (cell_of cv)) where
    -- A change of the cached value at the slot where find has ended.
    pub record Replaced : Type 0 where
      pub cv : CachedValue S.Obj
      pub after : SimpleMultiStore S B R
      pub got : must_get_cached_value S B R q.found.store (slot sha256 d h) ≡ some cv
      pub done : set_cached_value S B R q.found.store (slot sha256 d h) (change cv) ≡ some after
      pub moved :
          Moved S B R q.found.store
            (λ j. if bytes_eq (slot sha256 d h) j then to c else cells S B R s j)
            after

    pub replace : Replaced
    replace =
        (let cached = q.last (
            Points-some sha256 S B R q.found.cv c (cells S B R s (slot sha256 d h)) here
              q.points) in
          let (cv, got, o) =
            must_get_cached_value-eq S B R q.found.store (slot sha256 d h) c cached
              (q.moved.viewed (slot sha256 d h) ∙ here) in
          let (after, done, moved) = set-Located q (slot sha256 d h) (change cv) in
          let same : kept_cell (change cv) ≡ to c =
            changes cv o.1 ∙ ap to (sym (some-injective c (cell_of cv) o.0)) in
          record {
            cv = cv;
            after = after;
            got = got;
            done = done;
            moved =
                subst
                  (λ x.
                    Moved S B R q.found.store
                      (λ j. if bytes_eq (slot sha256 d h) j then x else cells S B R s j) after)
                  same moved;
          })

  -- Set at a key of the list changes its object.
  pub set-Member :
      (s : SimpleMultiStore S B R) (es : List (Live S.Obj)) (e : Live S.Obj) (obj : Held S.Obj)
      → Holds sha256 S B R s es
      → Member e es
      → 100 * suc (length es) < 2 ^ 64
      → (s' : SimpleMultiStore S B R) × (set_helper sha256 S B R s e.key obj ≡ some s')
        × Holds sha256 S B R s' (record e { obj = some obj } ∷ without e.key es)
  unfolding set_helper find set_found
  set-Member s es e obj h m few =
      (let q = find-Member sha256 S B R s es e false h m in
        let p = All_Member (IsPlaced sha256 (cells S B R s)) es e m h.represents.placed in
        let path = Located-path q in
        let x =
          replace q p.cell p.here (λ cv. record cv { obj = some obj })
            (λ c. some (record c { obj = some obj })) (λ cv alive. rw alive refl) in
        (
          x.after,
          rw (q.done, path.0, path.1, q.status, set_found, x.got) x.done,
          record {
            readable = x.moved.readable;
            represents =
                set_Represents sha256 (cells S B R s) (cells S B R x.after) es
                  (record e { obj = some obj }) (record p.cell { obj = some obj }) (λ k. 0)
                  h.represents few p.near p.same_key refl p.full
                  ((count_bound (cells S B R s) es (home sha256 e) p.cell h.represents p.here).0
                    ∙ count-without sha256 (home sha256 e) es e h.represents.distinct m)
                  p.others (IsPlaced-own sha256 (cells S B R s) e p)
                  (alone_of_Member (cells S B R s) es e h.represents m)
                  (x.moved.viewed (home sha256 e) ∙ rw (bytes_eq_refl (home sha256 e)) refl)
                  (λ k ne. x.moved.viewed k ∙ rw ne (sym (no_raise (cells S B R s k))))
                  (λ k ne. may_stay k (cells S B R s k) refl)
                  (λ k ne. omega (arith, count-without sha256 k es e h.represents.distinct m));
          },
        ))
    where
      may_stay : (k : Bytes) (o : Option (Cell S.Obj)) → cells S B R s k ≡ o → MayRaise 0 o
      may_stay k none i = refl
      may_stay k (some c) i =
          omega (arith, few, (count_bound (cells S B R s) es k c h.represents i).1)
