-- ===== src/EntryFile/Positions.antt =====
-- What `get_all_pos` reports: ascending places that do not overlap, each holding the separator.
use onvakv.Base.{
  ℕ, zero, suc, ◌+◌, ◌≤◌, ◌≡◌, refl, sym, ◌∙◌, true, some, List, [], ◌∷◌, inl, inr, length, take,
  drop, arith, ltb, Bool-cases, Option-cases, length-drop, length-take,
}
use onvakv.Types.{Bytes}
use onvakv.EntryFile.Encode.{has_prefix, index, magic_bytes, get_all_pos_loop, get_all_pos}
use onvakv.EntryFile.Overwrite.{Places}

abbrev empty_bytes : Bytes
empty_bytes = []

pub has_prefix-length : (s sep : Bytes) → has_prefix s sep ≡ true → length sep ≤ length s
unfolding has_prefix
has_prefix-length s [] h = omega arith
has_prefix-length [] (c ∷ cs) h = cc
has_prefix-length (b ∷ bs) (c ∷ cs) h = ground (arith, has_prefix-length bs cs)

pub has_prefix-take :
    (n : ℕ) (s sep : Bytes) → has_prefix (take n s) sep ≡ true → has_prefix s sep ≡ true
unfolding has_prefix
has_prefix-take zero s [] h = refl
has_prefix-take zero s (c ∷ cs) h = cc
has_prefix-take (suc n) [] sep h = h
has_prefix-take (suc n) (b ∷ bs) [] h = refl
has_prefix-take (suc n) (b ∷ bs) (c ∷ cs) h = ground (arith, has_prefix-take n bs cs)

drop-nil : (p : ℕ) → drop p (empty_bytes) ≡ []
drop-nil zero = refl
drop-nil (suc p) = refl

pub drop-drop : (p start : ℕ) (s : Bytes) → drop p (drop start s) ≡ drop (p + start) s
drop-drop p zero s = let e : p + 0 ≡ p = omega arith in rw e
drop-drop p (suc start) [] = drop-nil p ∙ sym (drop-nil (p + suc start))
drop-drop p (suc start) (x ∷ s) =
    let e : p + suc start ≡ suc (p + start) = omega arith in rw e (drop-drop p start s)

pub has_prefix-drop-take :
    (p n : ℕ) (s sep : Bytes)
    → has_prefix (drop p (take n s)) sep ≡ true
    → has_prefix (drop p s) sep ≡ true
unfolding has_prefix
has_prefix-drop-take p n s [] h = refl
has_prefix-drop-take zero n s (c ∷ cs) h = has_prefix-take n s (c ∷ cs) h
has_prefix-drop-take (suc p) zero s (c ∷ cs) h = cc
has_prefix-drop-take (suc p) (suc n) [] (c ∷ cs) h = cc
has_prefix-drop-take (suc p) (suc n) (x ∷ s) (c ∷ cs) h = has_prefix-drop-take p n s (c ∷ cs) h

pub index_sound : (s sep : Bytes) (p : ℕ) → index s sep ≡ some p → has_prefix (drop p s) sep ≡ true
unfolding index
index_sound [] sep p h = ground arith
index_sound (b ∷ bs) sep zero h = elim (Option-cases (index bs sep)) [
  | inl e ↦ ground (arith, e)
  | inr (q, e) ↦ ground (arith, e)
]
index_sound (b ∷ bs) sep (suc p) h = elim (Option-cases (index bs sep)) [
  | inl e ↦ ground (arith, e)
  | inr (q, e) ↦ ground (arith, e, index_sound bs sep p)
]

-- The places that the loop reports from `start` on.
get_all_pos_loop-Places :
    (fuel : ℕ) (s : Bytes) (start : ℕ) → Places s start (get_all_pos_loop fuel s magic_bytes start)
unfolding get_all_pos_loop
get_all_pos_loop-Places zero s start = tt
get_all_pos_loop-Places (suc fuel) s start = elim (Bool-cases (ltb (start + 8) (length s))) [
  | inr stop ↦ rw stop tt
  | inl more ↦ rw more (elim (Option-cases (index (drop start s) magic_bytes)) [
    | inl e ↦ rw e tt
    | inr (p, e) ↦ rw e (
        let found = rw (drop-drop p start s) at (index_sound (drop start s) magic_bytes p e) in
        (
          omega arith,
          omega (
            arith,
            has_prefix-length (drop (p + start) s) magic_bytes found,
            length-drop (p + start) s,
          ),
          found,
          let next : start + p + 8 ≡ p + start + 8 = omega arith in
              rw next (get_all_pos_loop-Places fuel s (p + start + 8)),
        ))
  ])
]

pub Places-take :
    (n : ℕ) (s : Bytes) (start : ℕ) (ps : List ℕ) → Places (take n s) start ps → Places s start ps
Places-take n s start [] w = tt
Places-take n s start (p ∷ ps) (le, fits, here, w) = (
  le,
  omega (arith, length-take n s),
  has_prefix-drop-take p n s magic_bytes here,
  Places-take n s (p + 8) ps w,
)

-- The places that are found in the first `n` bytes are places of the whole.
pub get_all_pos-Places : (n : ℕ) (s : Bytes) → Places s 0 (get_all_pos (take n s) magic_bytes)
unfolding get_all_pos
get_all_pos-Places n s =
    Places-take n s 0 _ (get_all_pos_loop-Places (suc (length (take n s))) (take n s) 0)
