-- ===== src/EntryFile/Takes.antt =====
-- How many bytes a successful read takes.
use onvakv.Base.{
  ℕ, ◌+◌, ◌≤◌, ◌≡◌, some, List, length, length-take, length-drop, arith, bind-eq-some,
}
use onvakv.Base.Int.{ℤ}
use onvakv.Types.{Bytes, Entry}
use onvakv.EntryFile.Decode.{read_bytes, read_le, read_i64, read_string, entry_from_bytes}

read_bytes_takes :
    (n : ℕ) (b x rest : Bytes)
    → read_bytes n b ≡ some (x, rest)
    → (length x ≡ n) × (length x + length rest ≡ length b)
unfolding read_bytes
read_bytes_takes n b x rest h = ground (arith, length-take n b, length-drop n b)

read_le_takes :
    (k n : ℕ) (b rest : Bytes) → read_le k b ≡ some (n, rest) → length rest + k ≡ length b
unfolding read_le
read_le_takes k n b rest h =
    let ((x, r), e, f) = bind-eq-some (read_bytes k b) _ h in
    ground (arith, e, f, read_bytes_takes k b x r)

read_string_takes :
    (b s rest : Bytes) → read_string b ≡ some (s, rest) → length s + length rest + 4 ≡ length b
unfolding read_string
read_string_takes b s rest h =
    let ((n, r), e, f) = bind-eq-some (read_le 4 b) _ h in
    ground (arith, f, read_le_takes 4 n b r e, read_bytes_takes n r s rest)

read_i64_takes : (b rest : Bytes) (x : ℤ) → read_i64 b ≡ some (x, rest) → length rest + 8 ≡ length b
unfolding read_i64
read_i64_takes b rest x h =
    let ((n, r), e, f) = bind-eq-some (read_le 8 b) _ h in
    ground (arith, e, f, read_le_takes 8 n b r)

-- An entry that is read stands in the input with its lengths and numbers.
pub entry_from_bytes_takes :
    (b : Bytes) (n : ℕ) (x : Entry) (sns : List ℤ)
    → entry_from_bytes b n ≡ some (x, sns)
    → length x.key + length x.value + length x.next_key + 36 ≤ length b
unfolding entry_from_bytes
entry_from_bytes_takes b n x sns h =
    let ((k, b1), e1, h1) = bind-eq-some (read_string b) _ h in
    let ((v, b2), e2, h2) = bind-eq-some (read_string b1) _ h1 in
    let ((nk, b3), e3, h3) = bind-eq-some (read_string b2) _ h2 in
    let ((ht, b4), e4, h4) = bind-eq-some (read_i64 b3) _ h3 in
    let ((lh, b5), e5, h5) = bind-eq-some (read_i64 b4) _ h4 in
    let ((sn, b6), e6, h6) = bind-eq-some (read_i64 b5) _ h5 in
    ground (
      arith,
      read_string_takes b k b1 e1,
      read_string_takes b1 v b2 e2,
      read_string_takes b2 nk b3 e3,
      read_i64_takes b3 b4 ht e4,
      read_i64_takes b4 b5 lh e5,
      read_i64_takes b5 b6 sn e6,
      h6,
    )
