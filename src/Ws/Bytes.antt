-- ===== src/Ws/Bytes.antt =====
-- Bytes and the masking of frames in src/model/ws_client.cpp.
use e_trace_diag.Prelude.{
  passes, passes_at, ℕ, zero, suc, ◌-◌, ◌*◌, ◌/◌, ◌%◌, ◌^◌, ◌<◌, Bool, true, ◌&&◌, List, [], ◌∷◌,
  ◌≡◌, refl, ap, arith, bit_and, bit_xor, bit_or, ◌==◌, ==_iff, length, All,
}

abbrev pub IsByte : ℕ → Type 0
IsByte b = b < 256

-- Byte `i` of the four of a key, the highest first: `(key >> ((3 - i) * 8)) & 0xFF`.
unfoldable pub key_byte : ℕ → ℕ → ℕ
key_byte key i = key / 2 ^ ((3 - i) * 8) % 256

unfoldable pub key_bytes : ℕ → List ℕ
unfolding key_byte
key_bytes key = key_byte key 0 ∷ key_byte key 1 ∷ key_byte key 2 ∷ key_byte key 3 ∷ []

-- `buffer[i]`; no call goes past the end of its buffer.
unfoldable pub byte_at : List ℕ → ℕ → ℕ
byte_at [] i = 0
byte_at (k ∷ ks) zero = k
byte_at (k ∷ ks) (suc i) = byte_at ks i

-- The loop `x[i] ^ mkey[i % 4]` from index `i` on.
unfoldable pub mask_from : List ℕ → ℕ → List ℕ → List ℕ
unfolding byte_at
mask_from mkey i [] = []
mask_from mkey i (b ∷ bs) = bit_xor b (byte_at mkey (i % 4)) ∷ mask_from mkey (suc i) bs

xor_table : passes (λ a. passes (λ b. bit_xor (bit_xor a b) b == a) 256) 256 ≡ true
xor_table = refl

pub xor_twice : (a b : ℕ) → a < 256 → b < 256 → bit_xor (bit_xor a b) b ≡ a
xor_twice a b h k = (==_iff _ a).0 (
    passes_at (λ b. bit_xor (bit_xor a b) b == a) b 256
      (passes_at (λ c. passes (λ b. bit_xor (bit_xor c b) b == c) 256) a 256 xor_table h) k)

-- The length byte of a masked frame: `0x80 | n`.
length_table :
    passes (λ n. (bit_and (bit_or 0x80 n) 0x7F == n) && (bit_and (bit_or 0x80 n) 0x80 == 0x80)) 128
    ≡ true
length_table = refl

both : (a b : Bool) → (a && b) ≡ true → (a ≡ true) × (b ≡ true)
both a b h = ground arith

pub length_byte :
    (n : ℕ) → n < 128 → (bit_and (bit_or 0x80 n) 0x7F ≡ n) × (bit_and (bit_or 0x80 n) 0x80 ≡ 0x80)
length_byte n h =
    let t = both _ _ (
      passes_at (λ n. (bit_and (bit_or 0x80 n) 0x7F == n) && (bit_and (bit_or 0x80 n) 0x80 == 0x80))
        n 128 length_table h) in
    ((==_iff _ n).0 t.0, (==_iff _ 0x80).0 t.1)

-- The length byte of a frame that is not masked.
plain_table : passes (λ n. (bit_and n 0x7F == n) && (bit_and n 0x80 == 0)) 128 ≡ true
plain_table = refl

pub plain_length_byte : (n : ℕ) → n < 128 → (bit_and n 0x7F ≡ n) × (bit_and n 0x80 ≡ 0)
plain_length_byte n h =
    let t =
      both _ _
        (passes_at (λ n. (bit_and n 0x7F == n) && (bit_and n 0x80 == 0)) n 128 plain_table h) in
    ((==_iff _ n).0 t.0, (==_iff _ 0).0 t.1)

byte_at-IsByte : (mkey : List ℕ) (i : ℕ) → All IsByte mkey → byte_at mkey i < 256
unfolding byte_at
byte_at-IsByte [] i h = omega arith
byte_at-IsByte (k ∷ ks) zero h = h.0
byte_at-IsByte (k ∷ ks) (suc i) h = byte_at-IsByte ks i h.1

-- Unmasking undoes masking.
pub mask_from_twice :
    (mkey : List ℕ) (i : ℕ) (bs : List ℕ)
    → All IsByte mkey
    → All IsByte bs
    → mask_from mkey i (mask_from mkey i bs) ≡ bs
unfolding mask_from
mask_from_twice mkey i [] k h = refl
mask_from_twice mkey i (b ∷ bs) k h = ground (
  arith,
  xor_twice b (byte_at mkey (i % 4)) h.0 (byte_at-IsByte mkey (i % 4) k),
  mask_from_twice mkey (suc i) bs k h.1,
)

pub length-mask_from :
    (mkey : List ℕ) (i : ℕ) (bs : List ℕ) → length (mask_from mkey i bs) ≡ length bs
unfolding mask_from
length-mask_from mkey i [] = refl
length-mask_from mkey i (b ∷ bs) = ap suc (length-mask_from mkey (suc i) bs)

pub key_bytes-IsByte : (key : ℕ) → All IsByte (key_bytes key)
unfolding key_bytes
key_bytes-IsByte key = omega arith
