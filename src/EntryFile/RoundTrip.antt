-- ===== src/EntryFile/RoundTrip.antt =====
-- What is written as an entry is read back.
use onvakv.Base.{
  ℕ, ◌+◌, ◌-◌, ◌*◌, ◌%◌, ◌^◌, ◌≤◌, ◌<◌, ◌≡◌, refl, sym, ap, ◌∙◌, Bool, true, false, Option, some,
  List, [], ◌∷◌, ◌++◌, append-nil, append_assoc, length, take, drop, take-append, take_all,
  drop-append, length-append, arith, All,
}
use onvakv.Base.Int.{ℤ, IsI64}
use onvakv.Base.Words.{get_le, put_le, length-put_le, get_le-put_le_24}
use onvakv.ByteSlices.{bytes_eq}
use onvakv.Types.{Bytes, Entry}
use onvakv.EntryFile.Encode.{
  magic_bytes, max_entry_bytes, no_pos, put_uint24, sn_list_to_bytes, write_entry_payload,
  entry_to_bytes, put_pos_list,
}
use onvakv.EntryFile.Decode.{get_uint24, recover_magic_bytes, read_sn_list}
use onvakv.EntryFile.File.{
  restored, parse_length, read_magic_bytes_and_length, read_entry_bytes, read_entry_and_sn_list,
  read_entry, read_entry_raw_bytes, get_next_pos,
}
use onvakv.EntryFile.Payload.{IsEntry, read_payload, read_sn_list_lem}
use onvakv.EntryFile.Recover.{recover_marked, marked, length-put_pos_list}
use onvakv.EntryFile.Split.{
  places, body, length-body, entry_to_bytes-split, places-Places, body-append,
  length-write_entry_payload, length-sn_list_to_bytes,
}

-- An entry that its 24-bit length can describe, with the serial numbers that follow it.
pub record IsWritable (e : Entry) (sns : List ℤ) : Type 0 where
  pub short : length (body e) + 8 * length sns < max_entry_bytes
  pub few : length sns < 256

get_uint24_lem : (n : ℕ) (rest : Bytes) → n < 2 ^ 24 → get_uint24 (put_uint24 n ++ rest) ≡ n
unfolding get_uint24 put_uint24
get_uint24_lem n rest h =
    rw (take-append (put_le 3 n) rest 3 (sym (length-put_le 3 n))) (get_le-put_le_24 n h)

-- Restoring the body and cutting off the list of places gives the payload.
pub recover_body :
    (e : Entry) (sns : List ℤ)
    → IsWritable e sns
    → recover_magic_bytes (body e ++ sn_list_to_bytes sns)
      ≡ some (
        marked (4 * length (places e)) (places e) (write_entry_payload e sns),
        4 * length (places e) + 4,
      )
recover_body e sns w = rw (← body-append e sns) (
    recover_marked (write_entry_payload e sns) (places e) (places-Places e sns)
      (omega (arith, w.short, length-body e, length-write_entry_payload e sns))
      (omega (arith, length-write_entry_payload e sns)))

pub drop-marked :
    (added : ℕ) (ps : List ℕ) (z : Bytes) → drop (4 * length ps + 4) (marked added ps z) ≡ z
drop-marked added ps z =
    ap (drop (4 * length ps + 4)) (sym (append_assoc (put_pos_list added ps) (put_le 4 no_pos) z))
    ∙ drop-append (put_pos_list added ps ++ put_le 4 no_pos) z _ (
        omega (
          arith,
          length-append (put_pos_list added ps) (put_le 4 no_pos),
          length-put_pos_list added ps,
          length-put_le 4 no_pos,
        ))

pub no_sns : read_sn_list 0 (sn_list_to_bytes []) ≡ some []
unfolding read_sn_list
no_sns = refl

-- The magic bytes, the count of serial numbers and the length.
abbrev record_head : Entry → List ℤ → Bytes
record_head e sns = magic_bytes ++ ((length sns % 256) ∷ put_uint24 (length (body e)))

length-record_head : (e : Entry) (sns : List ℤ) → length (record_head e sns) ≡ 12
unfolding put_uint24 put_le
length-record_head e sns = refl

record-split :
    (e : Entry) (sns : List ℤ)
    → magic_bytes ++ entry_to_bytes e sns ≡ record_head e sns ++ (body e ++ sn_list_to_bytes sns)
record-split e sns = ap (λ t. magic_bytes ++ t) (entry_to_bytes-split e sns)

-- What the reader does with the bytes of a record: `out` is the part of the serial numbers that it
-- has read.
finish :
    (e : Entry) (sns out : List ℤ) (len : ℕ)
    → IsWritable e out
    → len ≡ length (body e) + 8 * length out
    → restored len (drop 12 (record_head e sns ++ (body e ++ sn_list_to_bytes out)))
      ≡ some (write_entry_payload e out)
unfolding restored
finish e sns out len w h =
    rw
      (
        drop-append (record_head e sns) (body e ++ sn_list_to_bytes out) 12
            (sym (length-record_head e sns)),
        recover_body e out w,
        drop-marked (4 * length (places e)) (places e) (write_entry_payload e out),
        take_all (write_entry_payload e out) (len - (4 * length (places e) + 4))
            (omega (arith, length-body e, length-write_entry_payload e out)),
      )
      (ground (arith, length-body e))

-- Where the record that begins at `off` ends.
abbrev pub record_end : ℕ → Entry → List ℤ → ℕ
record_end off e sns = get_next_pos off (length (body e) + 8 * length sns)

pub length-record : (e : Entry) (sns : List ℤ) → 12 ≤ length (magic_bytes ++ entry_to_bytes e sns)
unfolding entry_to_bytes put_uint24 put_le
length-record e sns = omega (
  arith,
  length-append magic_bytes (entry_to_bytes e sns),
  ap length (entry_to_bytes-split e sns),
  length-append (body e) (sn_list_to_bytes sns),
  length-body e,
)

-- A reader that finds the bytes `content` at `off`.
pub record Reads (read_at : Bool → ℕ → ℕ → Option Bytes) (off : ℕ) (content : Bytes) : Type 0 where
  pub at :
      (with_buf : Bool) (n : ℕ)
      → n ≤ length content
      → read_at with_buf off n ≡ some (take n content)

module _ (read_at : Bool → ℕ → ℕ → Option Bytes) (off : ℕ) (e : Entry) (sns : List ℤ)
    (w : IsWritable e sns) (r : Reads read_at off (magic_bytes ++ entry_to_bytes e sns)) where
  pub head_read :
      (with_buf : Bool)
      → read_magic_bytes_and_length read_at off with_buf ≡ some (length (body e), length sns)
  unfolding read_magic_bytes_and_length parse_length get_uint24 put_uint24 put_le get_le bytes_eq
  head_read with_buf =
      rw
        (r.at with_buf 12 (
          omega (
            arith,
            ap length (entry_to_bytes-split e sns),
            length-append (body e) (sn_list_to_bytes sns),
            length-body e,
          )))
        (rw (entry_to_bytes-split e sns) (ground (arith, w.short, w.few)))

  -- A read from the beginning of the record that ends with the body, or with the serial numbers.
  read_front :
      (with_buf : Bool) (n : ℕ) (front rest : Bytes)
      → magic_bytes ++ entry_to_bytes e sns ≡ front ++ rest
      → n ≡ length front
      → read_at with_buf off n ≡ some front
  read_front with_buf n front rest split h =
      r.at with_buf n (omega (arith, ap length split, length-append front rest))
      ∙ ap some (ap (take n) split ∙ take-append front rest n h)

  read_to_end :
      (with_buf : Bool)
      → read_at with_buf off (12 + (length (body e) + 8 * length sns))
        ≡ some (record_head e sns ++ (body e ++ sn_list_to_bytes sns))
  read_to_end with_buf =
      read_front with_buf _ (record_head e sns ++ (body e ++ sn_list_to_bytes sns)) []
        (record-split e sns ∙ sym (append-nil _))
        (omega (
          arith,
          length-append (record_head e sns) (body e ++ sn_list_to_bytes sns),
          length-record_head e sns,
          length-append (body e) (sn_list_to_bytes sns),
          length-sn_list_to_bytes sns,
        ))

  read_body :
      (with_buf : Bool)
      → read_at with_buf off (12 + length (body e)) ≡ some (record_head e sns ++ body e)
  read_body with_buf =
      read_front with_buf _ (record_head e sns ++ body e) (sn_list_to_bytes sns)
        (record-split e sns
          ∙ sym (append_assoc (record_head e sns) (body e) (sn_list_to_bytes sns)))
        (omega (arith, length-append (record_head e sns) (body e), length-record_head e sns))

  pub read_with_sn_list :
      read_entry_bytes read_at off true false true
      ≡ some (write_entry_payload e sns, length sns, record_end off e sns)
  unfolding read_entry_bytes
  read_with_sn_list = rw (head_read true, read_to_end true) (rw (finish e sns sns _ w refl))

  finish_body :
      restored (length (body e)) (drop 12 (record_head e sns ++ body e))
      ≡ some (write_entry_payload e [])
  unfolding sn_list_to_bytes
  finish_body =
      ap (λ t. restored (length (body e)) (drop 12 (record_head e sns ++ t)))
        (sym (append-nil (body e)))
      ∙ finish e sns [] (length (body e))
          (record { short = omega (arith, w.short); few = omega arith }) (omega arith)

  pub read_without_sn_list :
      (with_buf : Bool)
      → read_entry_bytes read_at off false false with_buf
        ≡ some (write_entry_payload e [], 0, record_end off e sns)
  unfolding read_entry_bytes
  read_without_sn_list with_buf = rw (head_read with_buf, read_body with_buf) (rw finish_body)

  pub read_raw :
      read_entry_raw_bytes read_at off
      ≡ some (((length sns % 256) ∷ put_uint24 (length (body e))) ++ body e, record_end off e sns)
  unfolding read_entry_raw_bytes read_entry_bytes
  read_raw = rw (head_read true, read_body true)

  -- ReadEntryAndSNList returns the entry and the serial numbers that EntryToBytes wrote at the
  -- offset, whatever magic bytes the strings hold, and the offset of the next record.
  pub read_entry_and_sn_list-entry_to_bytes :
      IsEntry e
      → All IsI64 sns
      → read_entry_and_sn_list read_at off ≡ some (e, sns, record_end off e sns)
  unfolding read_entry_and_sn_list
  read_entry_and_sn_list-entry_to_bytes v h =
      rw (read_with_sn_list, read_payload e sns (length sns) v (read_sn_list_lem sns h))

  -- ReadEntry returns the entry without the serial numbers, and the offset of the next record.
  pub read_entry-entry_to_bytes :
      IsEntry e → read_entry read_at off ≡ some (e, record_end off e sns)
  unfolding read_entry
  read_entry-entry_to_bytes v =
      rw (read_without_sn_list false, read_payload e [] 0 {out = []} v no_sns)
