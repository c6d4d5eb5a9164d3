-- ===== src/EntryFile/Split.antt =====
-- The parts of an encoded entry: a head of four bytes, a body that the serial numbers of the
-- deactivated entries leave alone, and these numbers.
use onvakv.Base.{
  ℕ, zero, suc, ◌+◌, ◌-◌, ◌*◌, ◌%◌, ◌≤◌, ◌≡◌, refl, ap, ◌∙◌, List, [], ◌∷◌, ◌++◌, append-nil,
  append_assoc, length, take, replicate, take-append, length-append, arith, All,
}
use onvakv.Base.Int.{ℤ, to_u64}
use onvakv.Base.Words.{put_le, length-put_le}
use onvakv.Types.{Bytes, Entry}
use onvakv.EntryFile.Encode.{
  magic_bytes, overwrite, zero_out, get_all_pos, put_uint24, sn_list_to_bytes, entry_strings,
  entry_numbers, write_entry_payload, entry_to_bytes,
}
use onvakv.EntryFile.Overwrite.{Places, length-overwrite, length-zero_out}
use onvakv.EntryFile.Positions.{get_all_pos-Places}
use onvakv.EntryFile.Recover.{marked, length-marked, Places-fit}

-- The places of the magic bytes in the strings of an entry, and its body.
unfoldable pub places : Entry → List ℕ
places e = get_all_pos (entry_strings e []) magic_bytes

unfoldable pub body : Entry → Bytes
body e = marked (4 * length (places e)) (places e) (zero_out (places e) (write_entry_payload e []))

pub entry_strings-append :
    (e : Entry) (rest : Bytes) → entry_strings e rest ≡ entry_strings e [] ++ rest
unfolding entry_strings
entry_strings-append e rest = simp append_assoc

pub length-sn_list_to_bytes : (sns : List ℤ) → length (sn_list_to_bytes sns) ≡ 8 * length sns
unfolding sn_list_to_bytes
length-sn_list_to_bytes [] = refl
length-sn_list_to_bytes (sn ∷ sns) = omega (
  arith,
  length-append (put_le 8 (to_u64 sn)) (sn_list_to_bytes sns),
  length-put_le 8 (to_u64 sn),
  length-sn_list_to_bytes sns,
)

pub length-entry_numbers :
    (e : Entry) (sns : List ℤ) → length (entry_numbers e sns) ≡ 24 + 8 * length sns
unfolding entry_numbers
length-entry_numbers e sns = omega (
  arith,
  length-append (put_le 8 (to_u64 e.height))
      (put_le 8 (to_u64 e.last_height) ++ (put_le 8 (to_u64 e.serial_num) ++ sn_list_to_bytes sns)),
  length-append (put_le 8 (to_u64 e.last_height))
      (put_le 8 (to_u64 e.serial_num) ++ sn_list_to_bytes sns),
  length-append (put_le 8 (to_u64 e.serial_num)) (sn_list_to_bytes sns),
  length-put_le 8 (to_u64 e.height),
  length-put_le 8 (to_u64 e.last_height),
  length-put_le 8 (to_u64 e.serial_num),
  length-sn_list_to_bytes sns,
)

pub write_entry_payload-split :
    (e : Entry) (sns : List ℤ)
    → write_entry_payload e sns ≡ write_entry_payload e [] ++ sn_list_to_bytes sns
unfolding write_entry_payload entry_strings entry_numbers sn_list_to_bytes
write_entry_payload-split e sns = simp (append_assoc, append-nil)

pub length-write_entry_payload :
    (e : Entry) (sns : List ℤ)
    → length (write_entry_payload e sns) ≡ length (entry_strings e []) + 24 + 8 * length sns
unfolding write_entry_payload
length-write_entry_payload e sns = omega (
  arith,
  ap length (entry_strings-append e (entry_numbers e sns)),
  length-append (entry_strings e []) (entry_numbers e sns),
  length-entry_numbers e sns,
)

overwrite-append_left :
    (p : ℕ) (new a b : Bytes)
    → p + length new ≤ length a
    → overwrite p new (a ++ b) ≡ overwrite p new a ++ b
unfolding overwrite
overwrite-append_left zero [] a b h = refl
overwrite-append_left zero (c ∷ cs) [] b h = absurd (omega arith)
overwrite-append_left zero (c ∷ cs) (x ∷ a) b h =
    ap (λ t. c ∷ t) (overwrite-append_left zero cs a b (omega arith))
overwrite-append_left (suc p) new [] b h = absurd (omega arith)
overwrite-append_left (suc p) new (x ∷ a) b h =
    ap (λ t. x ∷ t) (overwrite-append_left p new a b (omega arith))

pub zero_out-append :
    (ps : List ℕ) (a b : Bytes) (n : ℕ)
    → length a ≡ n
    → All (λ p. p + 8 ≤ n) ps
    → zero_out ps (a ++ b) ≡ zero_out ps a ++ b
unfolding zero_out
zero_out-append [] a b n e h = refl
zero_out-append (p ∷ ps) a b n e h =
    ap (zero_out ps) (overwrite-append_left p (replicate 8 0) a b (omega arith))
    ∙ zero_out-append ps (overwrite p (replicate 8 0) a) b n
        (length-overwrite p (replicate 8 0) a ∙ e) h.1

-- The places lie in the strings.
pub places-Places : (e : Entry) (sns : List ℤ) → Places (write_entry_payload e sns) 0 (places e)
unfolding places write_entry_payload
places-Places e sns =
    let front =
      take-append (entry_strings e []) (entry_numbers e sns) (length (entry_strings e [])) refl in
    rw (← front, ← entry_strings-append e (entry_numbers e sns))
      (get_all_pos-Places (length (entry_strings e [])) (write_entry_payload e sns))

pub write_entry_payload-strings :
    (e : Entry) (sns : List ℤ)
    → write_entry_payload e sns ≡ entry_strings e [] ++ entry_numbers e sns
unfolding write_entry_payload
write_entry_payload-strings e sns = entry_strings-append e (entry_numbers e sns)

-- The search is made in the strings alone.
found-eq-places :
    (e : Entry) (sns : List ℤ) (payload : Bytes)
    → payload ≡ write_entry_payload e sns
    → get_all_pos (take (length payload - length sns * 8 - 3 * 8) payload) magic_bytes ≡ places e
unfolding places
found-eq-places e sns payload h = ap (λ t. get_all_pos t magic_bytes) strings
  where
    strings : take (length payload - length sns * 8 - 3 * 8) payload ≡ entry_strings e []
    strings =
        ap (take (length payload - length sns * 8 - 3 * 8)) (h ∙ write_entry_payload-strings e sns)
        ∙ take-append (entry_strings e []) (entry_numbers e sns) _
            (omega (arith, ap length h, length-write_entry_payload e sns))

pub length-body :
    (e : Entry) → length (body e) ≡ 4 * length (places e) + 28 + length (entry_strings e [])
unfolding body
length-body e = omega (
  arith,
  length-marked (4 * length (places e)) (places e) (zero_out (places e) (write_entry_payload e [])),
  length-zero_out (places e) (write_entry_payload e []),
  length-write_entry_payload e [],
)

pub body-append :
    (e : Entry) (sns : List ℤ)
    → marked (4 * length (places e)) (places e) (zero_out (places e) (write_entry_payload e sns))
      ≡ body e ++ sn_list_to_bytes sns
unfolding body
body-append e sns =
    ap (λ t. marked (4 * length (places e)) (places e) t)
      (ap (zero_out (places e)) (write_entry_payload-split e sns)
        ∙ zero_out-append (places e) (write_entry_payload e []) (sn_list_to_bytes sns) _ refl
            (Places-fit (write_entry_payload e []) 0 (places e) (places-Places e [])))
    ∙ simp append_assoc

-- What EntryToBytes writes.
pub entry_to_bytes-split :
    (e : Entry) (sns : List ℤ)
    → entry_to_bytes e sns
      ≡ ((length sns % 256) ∷ put_uint24 (length (body e))) ++ (body e ++ sn_list_to_bytes sns)
unfolding entry_to_bytes
entry_to_bytes-split e sns = rw (found-eq-places e sns (write_entry_payload e sns) refl) (
    rw (← body-append e sns) (
      ap
        (λ t.
          (length sns % 256)
          ∷ (put_uint24 t
              ++ marked (4 * length (places e)) (places e)
                  (zero_out (places e) (write_entry_payload e sns))))
        size))
  where
    size :
        8 + length (write_entry_payload e sns) + 4 * length (places e) - 4 - length sns * 8
        ≡ length (body e)
    size = omega (arith, length-body e, length-write_entry_payload e sns)
