-- ===== src/EntryFile/Recover.antt =====
-- recoverMagicBytes undoes what EntryToBytes did to the occurrences of the magic bytes.
use onvakv.Base.{
  ℕ, zero, suc, ◌+◌, ◌*◌, ◌^◌, ◌≤◌, ◌<◌, ◌≡◌, refl, sym, ap, ◌∙◌, some, List, [], ◌∷◌, ◌++◌,
  append_assoc, length, take, drop, take-append, drop-append, length-append, arith, All,
}
use onvakv.Base.Words.{put_le, get_le, length-put_le, get_le-put_le_32}
use onvakv.Types.{Bytes}
use onvakv.EntryFile.Encode.{
  magic_bytes, max_entry_bytes, no_pos, put_pos_list, zero_out, overwrite,
}
use onvakv.EntryFile.Decode.{recover_loop, recover_magic_bytes}
use onvakv.EntryFile.Overwrite.{
  Places, restore, restore-zero_out, length-zero_out, length-overwrite, overwrite-append,
}

pub length-put_pos_list : (added : ℕ) (ps : List ℕ) → length (put_pos_list added ps) ≡ 4 * length ps
unfolding put_pos_list
length-put_pos_list added [] = refl
length-put_pos_list added (p ∷ ps) = omega (
  arith,
  length-append (put_le 4 (p + added)) (put_pos_list added ps),
  length-put_le 4 (p + added),
  length-put_pos_list added ps,
)

-- The four bytes at `n`, where `n` bytes stand in front.
read_at :
    (front : Bytes) (n v : ℕ) (rest : Bytes)
    → n ≡ length front
    → v < 2 ^ 32
    → get_le (take 4 (drop n (front ++ (put_le 4 v ++ rest)))) ≡ v
read_at front n v rest h lt =
    rw
      (
        drop-append front (put_le 4 v ++ rest) n h,
        take-append (put_le 4 v) rest 4 (sym (length-put_le 4 v)),
      )
      (get_le-put_le_32 v lt)

module _ (front : Bytes) (n : ℕ) (h : n ≡ length front) where
  -- The round that meets the mark behind the list.
  recover_loop_end :
      (fuel : ℕ) (z : Bytes)
      → 0 < length z
      → recover_loop (suc fuel) (front ++ (put_le 4 no_pos ++ z)) n
        ≡ some (front ++ (put_le 4 no_pos ++ z), n + 4)
  unfolding recover_loop
  recover_loop_end fuel z lt = rw (read_at front n no_pos z h (omega arith)) (
      ground (
        arith,
        length-append front (put_le 4 no_pos ++ z),
        length-append (put_le 4 no_pos) z,
        length-put_le 4 no_pos,
      ))

  -- A round that restores the place `p`.
  recover_loop_step :
      (fuel p : ℕ) (rest : Bytes)
      → p + 12 < max_entry_bytes
      → p + 12 ≤ length (front ++ (put_le 4 p ++ rest))
      → n + 4 < length (front ++ (put_le 4 p ++ rest))
      → recover_loop (suc fuel) (front ++ (put_le 4 p ++ rest)) n
        ≡ recover_loop fuel (overwrite (p + 4) magic_bytes (front ++ (put_le 4 p ++ rest))) (n + 4)
  unfolding recover_loop
  recover_loop_step fuel p rest small fits more =
      rw (read_at front n p rest h (omega arith)) (ground arith)

overwrite_behind :
    (a b c d : Bytes) (n p : ℕ) (new z : Bytes)
    → n ≡ length a + (length b + (length c + (length d + p)))
    → overwrite n new (a ++ (b ++ (c ++ (d ++ z)))) ≡ (a ++ b) ++ (c ++ (d ++ overwrite p new z))
overwrite_behind a b c d n p new z h =
    overwrite-append a n (length b + (length c + (length d + p))) new _ h
    ∙ ap (λ t. a ++ t)
        (overwrite-append b _ (length c + (length d + p)) new _ refl
          ∙ ap (λ t. b ++ t)
              (overwrite-append c _ (length d + p) new _ refl
                ∙ ap (λ t. c ++ t) (overwrite-append d _ p new z refl)))
    ∙ sym (append_assoc a b (c ++ (d ++ overwrite p new z)))

-- The rest of the list of places, the mark behind it, and the payload.
abbrev pub marked : ℕ → List ℕ → Bytes → Bytes
marked added ps z = put_pos_list added ps ++ (put_le 4 no_pos ++ z)

pub length-marked :
    (added : ℕ) (ps : List ℕ) (z : Bytes)
    → length (marked added ps z) ≡ 4 * length ps + 4 + length z
length-marked added ps z = omega (
  arith,
  length-append (put_pos_list added ps) (put_le 4 no_pos ++ z),
  length-append (put_le 4 no_pos) z,
  length-put_le 4 no_pos,
  length-put_pos_list added ps,
)

-- From the place that stands at `n` on, the loop restores every place and stops behind the mark.
recover_list :
    (ps : List ℕ) (fuel n added size : ℕ) (front z : Bytes)
    → length ps < fuel
    → n ≡ length front
    → n + 4 * length ps ≡ added
    → All (λ p. p + 8 ≤ size) ps
    → length z ≡ size
    → added + 4 + size < max_entry_bytes
    → 0 < size
    → recover_loop fuel (front ++ marked added ps z) n
      ≡ some (front ++ marked added ps (restore ps z), added + 4)
unfolding put_pos_list restore
recover_list ps zero n added size front z lt h sum fit e small pos = absurd (omega arith)
recover_list [] (suc fuel) n added size front z lt h sum fit e small pos =
    let e' : n ≡ added = omega arith in
    recover_loop_end front n h fuel z (omega arith)
    ∙ ap (λ t. some (front ++ (put_le 4 no_pos ++ z), t + 4)) e'
recover_list (p ∷ ps) (suc fuel) n added size front z lt h sum (fits, fit) e small pos =
    ap (λ t. recover_loop (suc fuel) (front ++ t) n) (append_assoc here (put_pos_list added ps) _)
    ∙ recover_loop_step front n h fuel (p + added) (marked added ps z) (omega arith)
        (omega (arith, whole)) (omega (arith, whole))
    ∙ ap (λ t. recover_loop fuel t (n + 4)) shift
    ∙ recover_list ps fuel (n + 4) added size (front ++ here) (overwrite p magic_bytes z)
        (omega arith) (omega (arith, length-append front here, length-put_le 4 (p + added)))
        (omega arith) fit (length-overwrite p magic_bytes z ∙ e) small pos
    ∙ ap (λ t. some (t, added + 4)) back
  where
    here : Bytes
    here = put_le 4 (p + added)

    whole : length (front ++ (here ++ marked added ps z)) ≡ n + 4 + (4 * length ps + 4 + size)
    whole = omega (
      arith,
      length-append front (here ++ marked added ps z),
      length-append here (marked added ps z),
      length-put_le 4 (p + added),
      length-marked added ps z,
    )

    shift :
        overwrite (p + added + 4) magic_bytes (front ++ (here ++ marked added ps z))
        ≡ (front ++ here) ++ marked added ps (overwrite p magic_bytes z)
    shift =
        overwrite_behind front here (put_pos_list added ps) (put_le 4 no_pos) (p + added + 4) p
          magic_bytes z
          (omega (
            arith,
            length-put_le 4 (p + added),
            length-put_le 4 no_pos,
            length-put_pos_list added ps,
          ))

    back :
        (front ++ here) ++ marked added ps (restore ps (overwrite p magic_bytes z))
        ≡ front ++ marked added (p ∷ ps) (restore (p ∷ ps) z)
    back = simp append_assoc

pub Places-fit :
    (b : Bytes) (start : ℕ) (ps : List ℕ) → Places b start ps → All (λ p. p + 8 ≤ length b) ps
Places-fit b start [] w = tt
Places-fit b start (p ∷ ps) (le, fits, here, w) = (fits, Places-fit b (p + 8) ps w)

-- The whole of recoverMagicBytes on what follows the length of an entry.
pub recover_marked :
    (payload : Bytes) (ps : List ℕ)
    → Places payload 0 ps
    → 4 * length ps + 4 + length payload < max_entry_bytes
    → 0 < length payload
    → recover_magic_bytes (marked (4 * length ps) ps (zero_out ps payload))
      ≡ some (marked (4 * length ps) ps payload, 4 * length ps + 4)
unfolding recover_magic_bytes
recover_marked payload ps w small pos =
    recover_list ps _ 0 (4 * length ps) (length payload) [] (zero_out ps payload)
      (omega (arith, length-marked (4 * length ps) ps (zero_out ps payload))) refl (omega arith)
      (Places-fit payload 0 ps w) (length-zero_out ps payload) small pos
    ∙ ap (λ t. some (marked (4 * length ps) ps t, 4 * length ps + 4))
        (restore-zero_out ps 0 payload w)
