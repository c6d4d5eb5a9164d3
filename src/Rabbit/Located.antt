-- ===== src/Rabbit/Located.antt =====
-- What find gives on cells that represent keys.
use onvakv.Base.{
  ℕ, zero, suc, ◌≤◌, ◌<◌, Bool, true, false, ◌&&◌, Bool-cases, Option-cases, Option, none, some,
  some-injective, none-ne-some, List, [], ◌∷◌, All, ◌≡◌, ◌≢◌, inl, inr, refl, sym, ap, subst, ◌∙◌,
  arith, if◌then◌else◌, ◌==◌,
}
use onvakv.ByteSlices.{bytes_eq, bytes_eq_refl}
use onvakv.Types.{Bytes}
use onvakv.Rabbit.Operations.{Status, not_found, empty_slot, exists, short_key, is_exists}
use onvakv.Rabbit.Cells.{Cell}
use onvakv.Rabbit.Counts.{times}
use onvakv.Rabbit.Walk.{slot, passed, stop_cell, Walk}
use onvakv.Rabbit.Live.{
  Live, Absent, Member, Any-Member, All_Member, way, count, times-le-count, times_of_elements,
}
use onvakv.Rabbit.Represents.{IsPlaced, IsCounted, Represents}

-- A slot at which find ends: a free one, or one that has the key.
abbrev pub is_free_for : {O : Type 0} → Bytes → Option (Cell O) → Bool
is_free_for key none = true
is_free_for key (some c) = bytes_eq c.key key

module _ (sha256 : Bytes → Bytes) {O : Type 0} where
  -- Among the first short keys of a hash there is such a slot.
  unfoldable pub has_free : ℕ → (Bytes → Option (Cell O)) → Bytes → Bytes → Bool
  has_free zero f key h = false
  has_free (suc n) f key h =
      if is_free_for key (f (short_key h)) then true else has_free n f key (sha256 h)

  pub Walk-end :
      (f : Bytes → Option (Cell O)) (key : Bytes) (early_exit : Bool) (d : ℕ) (h : Bytes)
      (st : Status)
      → Walk sha256 f key early_exit d h st
      → stop_cell key early_exit (f (slot sha256 d h)) ≡ some st
  unfolding Walk slot
  Walk-end f key early_exit zero h st w = w
  Walk-end f key early_exit (suc d) h st w = Walk-end f key early_exit d (sha256 h) st w.1

  go_on-other :
      (key : Bytes) (early_exit : Bool) (o : Option (Cell O))
      → stop_cell key early_exit o ≡ none
      → (c : Cell O) × (o ≡ some c) × (bytes_eq c.key key ≡ false)
  go_on-other key early_exit none e = cc
  go_on-other key early_exit (some c) e = elim (Bool-cases (bytes_eq c.key key)) [
    | inl b ↦ absurd (none-ne-some (if c.is_empty then empty_slot else exists) (sym e ∙ rw b refl))
    | inr b ↦ (c, refl, b)
  ]

  -- The slots that find has passed by have other keys.
  pub Walk-others :
      (f : Bytes → Option (Cell O)) (key : Bytes) (early_exit : Bool) (d : ℕ) (h : Bytes)
      (st : Status)
      → Walk sha256 f key early_exit d h st
      → All (λ k. (c : Cell O) × (f k ≡ some c) × (bytes_eq c.key key ≡ false)) (passed sha256 d h)
  unfolding Walk passed
  Walk-others f key early_exit zero h st w = tt
  Walk-others f key early_exit (suc d) h st w = (
    go_on-other key early_exit (f (short_key h)) w.0,
    Walk-others f key early_exit d (sha256 h) st w.1,
  )

  free-stops :
      (key : Bytes) (early_exit : Bool) (o : Option (Cell O))
      → is_free_for key o ≡ true
      → stop_cell key early_exit o ≢ none
  free-stops key early_exit none e n = cc
  free-stops key early_exit (some c) e n =
      none-ne-some (if c.is_empty then empty_slot else exists) (sym n ∙ rw e refl)

  -- With such a slot find ends within the rounds.
  pub has_free-Walk :
      (n : ℕ) (f : Bytes → Option (Cell O)) (key : Bytes) (early_exit : Bool) (h : Bytes)
      → has_free n f key h ≡ true
      → (d : ℕ) × (st : Status) × (d < n) × Walk sha256 f key early_exit d h st
  unfolding has_free Walk
  has_free-Walk zero f key early_exit h e = cc
  has_free-Walk (suc n) f key early_exit h e =
      elim (Option-cases (stop_cell key early_exit (f (short_key h)))) [
        | inr (st, s) ↦ (0, st, omega arith, s)
        | inl go ↦ elim (Bool-cases (is_free_for key (f (short_key h)))) [
          | inl b ↦ absurd (free-stops key early_exit (f (short_key h)) b go)
          | inr b ↦
              (let (d, st, l, w) =
                  has_free-Walk n f key early_exit (sha256 h) (sym (rw b refl) ∙ e) in
                (suc d, st, omega (arith, l), (go, w)))
        ]
      ]

  placed-Walk :
      (f : Bytes → Option (Cell O)) (key : Bytes) (early_exit : Bool) (d : ℕ) (h : Bytes)
      (c : Cell O)
      → f (slot sha256 d h) ≡ some c
      → c.key ≡ key
      → c.is_empty ≡ false
      → All
          (λ k. (x : Cell O) × (f k ≡ some x) × (bytes_eq x.key key ≡ false) × (1 ≤ x.passby_num))
          (passed sha256 d h)
      → Walk sha256 f key early_exit d h exists
  unfolding Walk slot passed
  placed-Walk f key early_exit zero h c e s full a = rw (e, s, bytes_eq_refl key, full) refl
  placed-Walk f key early_exit (suc d) h c e s full a =
      (let used : (a.0.0.passby_num == 0) ≡ false = ground (arith, a.0.3) in
        (
          rw (a.0.1, a.0.2, used) (no_exit early_exit),
          placed-Walk f key early_exit d (sha256 h) c e s full a.1,
        ))
    where
      no_exit : (b : Bool) → (if b && false then some not_found else none) ≡ none
      no_exit true = refl
      no_exit false = refl

  -- find meets a key of the list.
  pub Member-Walk :
      (f : Bytes → Option (Cell O)) (es : List (Live O)) (e : Live O) (early_exit : Bool)
      → Represents sha256 f es
      → Member e es
      → Walk sha256 f e.key early_exit e.depth (sha256 e.key) exists
  Member-Walk f es e early_exit r m =
      (let p = All_Member (IsPlaced sha256 f) es e m r.placed in
        placed-Walk f e.key early_exit e.depth (sha256 e.key) p.cell p.here p.same_key p.full (
          on_way (way sha256 e) (λ k l. omega (arith, l, times-le-count sha256 k es e m))
            (times_of_elements (way sha256 e)) p.others))
    where
      passed_by : (k : Bytes) (x : Cell O) → f k ≡ some x → 1 ≤ count sha256 k es → 1 ≤ x.passby_num
      passed_by k x h l =
          (let counted : IsCounted sha256 k (some x) (count sha256 k es) es =
              subst (λ o. IsCounted sha256 k o (count sha256 k es) es) h (r.slots k) in
            omega (arith, counted.0, l))

      on_way :
          (ks : List Bytes)
          → ((k : Bytes) → 1 ≤ times k (way sha256 e) → 1 ≤ count sha256 k es)
          → All (λ k. 1 ≤ times k (way sha256 e)) ks
          → All (λ k. (x : Cell O) × (f k ≡ some x) × (bytes_eq x.key e.key ≡ false)) ks
          → All
              (λ k.
                (x : Cell O) × (f k ≡ some x) × (bytes_eq x.key e.key ≡ false) × (1 ≤ x.passby_num))
              ks
      on_way [] h l a = tt
      on_way (k ∷ ks) h l a =
          ((a.0.0, a.0.1, a.0.2, passed_by k a.0.0 a.0.1 (h k l.0)), on_way ks h l.1 a.1)

  -- A slot with a key that is not on the list is empty.
  pub Absent-empty :
      (f : Bytes → Option (Cell O)) (es : List (Live O)) (key k : Bytes) (c : Cell O)
      → Represents sha256 f es
      → Absent key es
      → f k ≡ some c
      → c.is_empty ≡ false
      → bytes_eq c.key key ≡ false
  Absent-empty f es key k c r a h full =
      (let counted : IsCounted sha256 k (some c) (count sha256 k es) es =
          subst (λ o. IsCounted sha256 k o (count sha256 k es) es) h (r.slots k) in
        let (y, my, q) = Any-Member es (counted.2 full) in
        ap (λ t. bytes_eq t key) (sym q.0) ∙ All_Member (λ x. bytes_eq x.key key ≡ false) es y my a)

  pub Absent-is_exists :
      (f : Bytes → Option (Cell O)) (es : List (Live O)) (key : Bytes) (early_exit : Bool)
      (k : Bytes) (st : Status) (o : Option (Cell O))
      → Represents sha256 f es
      → Absent key es
      → f k ≡ o
      → stop_cell key early_exit o ≡ some st
      → is_exists st ≡ false
  unfolding is_exists
  Absent-is_exists f es key early_exit k st none r a h e =
      rw (sym (some-injective not_found st e)) refl
  Absent-is_exists f es key early_exit k st (some c) r a h e = elim (Bool-cases c.is_empty) [
    | inl b ↦ ground (arith, e, b)
    | inr b ↦ ground (arith, e, b, Absent-empty f es key k c r a h b)
  ]
