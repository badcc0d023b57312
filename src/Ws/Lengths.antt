-- ===== src/Ws/Lengths.antt =====
-- The length field of a frame and its reader, and the two masking loops
-- (src/model/ws_client.cpp).
use e_trace_diag.Prelude.{
  ℕ, zero, suc, ◌+◌, ◌*◌, ◌/◌, ◌%◌, ◌^◌, ◌<◌, List, [], ◌∷◌, ◌≡◌, refl, ap, ◌∙◌, subst, arith, inl,
  inr, bit_or, ltb, if◌then◌else◌, drop, Bool-cases, ltb→lt,
}
use e_trace_diag.Ws.Bytes.{key_byte, key_bytes, byte_at, mask_from}
use e_trace_diag.Ws.Reader.{return, Reads, Reads-return, Reads-bind, read_exact, read_exact-Reads}
use e_trace_diag.Ws.Frame.{
  bytes16, bytes64, length_field, masked_text, shift_in, read_length16, read_length64, read_length,
}

-- The two loops that mask agree.
byte_at-key_bytes : (key i : ℕ) → i < 4 → byte_at (key_bytes key) i ≡ key_byte key i
unfolding byte_at key_bytes
byte_at-key_bytes key zero h = refl
byte_at-key_bytes key (suc zero) h = refl
byte_at-key_bytes key (suc (suc zero)) h = refl
byte_at-key_bytes key (suc (suc (suc zero))) h = refl
byte_at-key_bytes key (suc (suc (suc (suc i)))) h = absurd (omega arith)

pub masked_text-mask_from :
    (key i : ℕ) (bs : List ℕ) → masked_text key i bs ≡ mask_from (key_bytes key) i bs
unfolding masked_text mask_from
masked_text-mask_from key i [] = refl
masked_text-mask_from key i (b ∷ bs) =
    ground
      (arith, byte_at-key_bytes key (i % 4) (omega arith), masked_text-mask_from key (suc i) bs)

-- The extended length of a length field, behind its first byte.
unfoldable pub ext_field : ℕ → List ℕ
ext_field n = if ltb n 126 then [] else if ltb n 65536 then bytes16 n else bytes64 n

unfoldable pub len7 : ℕ → ℕ
len7 n = if ltb n 126 then n else if ltb n 65536 then 126 else 127

pub length_field_lem : (n : ℕ) → length_field n ≡ bit_or 0x80 (len7 n) ∷ ext_field n
unfolding length_field ext_field len7
length_field_lem n = ground arith

-- One byte of the eight shifted in.
shift_in_step :
    (n k b : ℕ) (bs : List ℕ)
    → n / 2 ^ 8 ≡ k
    → n < 2 ^ 64
    → b ≡ n % 256
    → shift_in k (b ∷ bs) ≡ shift_in n bs
unfolding shift_in
shift_in_step n k b bs e h d = ap (λ m. shift_in m bs) (omega arith)

shift_in-bytes64 : (n : ℕ) → n < 2 ^ 64 → shift_in 0 (bytes64 n) ≡ n
unfolding bytes64 shift_in
shift_in-bytes64 n h =
    shift_in_step (n / 2 ^ 56) 0 _ (drop 1 (bytes64 n)) (omega arith) (omega arith) refl
    ∙ shift_in_step (n / 2 ^ 48) (n / 2 ^ 56) _ (drop 2 (bytes64 n)) (omega arith) (omega arith)
        refl
    ∙ shift_in_step (n / 2 ^ 40) (n / 2 ^ 48) _ (drop 3 (bytes64 n)) (omega arith) (omega arith)
        refl
    ∙ shift_in_step (n / 2 ^ 32) (n / 2 ^ 40) _ (drop 4 (bytes64 n)) (omega arith) (omega arith)
        refl
    ∙ shift_in_step (n / 2 ^ 24) (n / 2 ^ 32) _ (drop 5 (bytes64 n)) (omega arith) (omega arith)
        refl
    ∙ shift_in_step (n / 2 ^ 16) (n / 2 ^ 24) _ (drop 6 (bytes64 n)) (omega arith) (omega arith)
        refl
    ∙ shift_in_step (n / 2 ^ 8) (n / 2 ^ 16) _ (drop 7 (bytes64 n)) (omega arith) (omega arith) refl
    ∙ shift_in_step n (n / 2 ^ 8) _ (drop 8 (bytes64 n)) (omega arith) h refl

read_length16-Reads : (n : ℕ) → n < 65536 → Reads read_length16 (bytes16 n) n
unfolding read_length16 bytes16
read_length16-Reads n h = subst (Reads read_length16 (bytes16 n)) (omega arith) (
    Reads-bind (read_exact 2) (λ ext. return (byte_at ext 0 * 2 ^ 8 + byte_at ext 1)) (bytes16 n) []
      (bytes16 n) _ (read_exact-Reads 2 (bytes16 n) refl) (Reads-return _))

read_length64-Reads : (n : ℕ) → n < 2 ^ 64 → Reads read_length64 (bytes64 n) n
unfolding read_length64 bytes64
read_length64-Reads n h = subst (Reads read_length64 (bytes64 n)) (shift_in-bytes64 n h) (
    Reads-bind (read_exact 8) (λ ext. return (shift_in 0 ext)) (bytes64 n) [] (bytes64 n) _
      (read_exact-Reads 8 (bytes64 n) refl) (Reads-return _))

read_length-short : (n : ℕ) → n < 126 → Reads (read_length n) [] n
unfolding read_length
read_length-short n h s rest o e = (s, ground arith, o, e)

pub read_length-Reads : (n : ℕ) → n < 2 ^ 64 → Reads (read_length (len7 n)) (ext_field n) n
unfolding len7 ext_field read_length
read_length-Reads n h = elim (Bool-cases (ltb n 126)) [
  | inl short ↦ rw short (read_length-short n (ltb→lt n 126 short))
  | inr long ↦ elim (Bool-cases (ltb n 65536)) [
    | inl two ↦ rw (long, two) (read_length16-Reads n (ltb→lt n 65536 two))
    | inr eight ↦ rw (long, eight) (read_length64-Reads n h)
  ]
]
