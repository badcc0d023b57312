-- ===== src/Ws/Answers.antt =====
-- The answer to a ping as RFC 6455 describes it, and that `RecvText` of src/model/ws_client.cpp builds
-- it.
use e_trace_diag.Prelude.{
  passes, passes_at, ℕ, true, suc, ◌+◌, ◌/◌, ◌%◌, ◌^◌, ◌<◌, List, [], ◌∷◌, ◌++◌, ◌≡◌, refl, ap, ◌∙◌,
  arith, length, bit_or, bit_xor, u8, ◌==◌, ==_iff,
}
use e_trace_diag.Ws.Bytes.{key_byte, key_bytes, byte_at, mask_from}
use e_trace_diag.Ws.Client.{pong_frame}

-- The bytes of a payload with those of the key in turn.
abbrev pub masked : ℕ → ℕ → ℕ → ℕ → List ℕ → List ℕ
masked k0 k1 k2 k3 [] = []
masked k0 k1 k2 k3 (b ∷ bs) = bit_xor b k0 ∷ masked k1 k2 k3 k0 bs

-- A final frame of opcode 10 with a payload of at most 125 bytes, which is masked: the length with
-- the mask's bit, the key from its highest byte on, the payload.
abbrev pub answer_frame : ℕ → List ℕ → List ℕ
answer_frame key bs =
    (128 + 10)
    ∷ (128 + length bs)
    ∷ (key / 2 ^ 24 % 256)
    ∷ (key / 2 ^ 16 % 256)
    ∷ (key / 2 ^ 8 % 256)
    ∷ (key % 256)
    ∷ masked (key / 2 ^ 24 % 256) (key / 2 ^ 16 % 256) (key / 2 ^ 8 % 256) (key % 256) bs

mask_from-masked :
    (mkey : List ℕ) (i : ℕ) (bs : List ℕ)
    → mask_from mkey i bs
      ≡ masked
          (byte_at mkey (i % 4))
          (byte_at mkey ((i + 1) % 4))
          (byte_at mkey ((i + 2) % 4))
          (byte_at mkey ((i + 3) % 4))
          bs
unfolding mask_from
mask_from-masked mkey i [] = refl
mask_from-masked mkey i (b ∷ bs) =
    ap (◌∷◌ (bit_xor b (byte_at mkey (i % 4))))
      (mask_from-masked mkey (suc i) bs ∙ rw (one, two, three, around) refl)
  where
    one : suc i % 4 ≡ (i + 1) % 4
    one = omega arith

    two : (suc i + 1) % 4 ≡ (i + 2) % 4
    two = omega arith

    three : (suc i + 2) % 4 ≡ (i + 3) % 4
    three = omega arith

    around : (suc i + 3) % 4 ≡ i % 4
    around = omega arith

mask_key_bytes :
    (key : ℕ) (bs : List ℕ)
    → key_bytes key ++ mask_from (key_bytes key) 0 bs
      ≡ key_byte key 0
        ∷ key_byte key 1
        ∷ key_byte key 2
        ∷ key_byte key 3
        ∷ masked (key_byte key 0) (key_byte key 1) (key_byte key 2) (key_byte key 3) bs
unfolding key_bytes byte_at
mask_key_bytes key bs =
    ap (λ ms. key_byte key 0 ∷ key_byte key 1 ∷ key_byte key 2 ∷ key_byte key 3 ∷ ms)
      (mask_from-masked (key_bytes key) 0 bs)

-- The bytes of the key, the lowest one without a shift.
key_byte_lem :
    (key : ℕ)
    → (key_byte key 0 ≡ key / 2 ^ 24 % 256)
      × (key_byte key 1 ≡ key / 2 ^ 16 % 256)
      × (key_byte key 2 ≡ key / 2 ^ 8 % 256)
      × (key_byte key 3 ≡ key % 256)
unfolding key_byte
key_byte_lem key = (refl, refl, refl, omega arith)

length_bytes : passes (λ n. u8 (bit_or 0x80 n) == 128 + n) 128 ≡ true
length_bytes = refl

pub pong_frame-answer :
    (key : ℕ) (bs : List ℕ) → length bs < 126 → pong_frame key bs ≡ answer_frame key bs
unfolding pong_frame
pong_frame-answer key bs short =
    let l : u8 (bit_or 0x80 (length bs)) ≡ 128 + length bs = (==_iff _ _).0 (
      passes_at (λ n. u8 (bit_or 0x80 n) == 128 + n) (length bs) 128 length_bytes
        (omega (arith, short))) in
    let (a, b, c, d) = key_byte_lem key in
    ap (λ ms. 0x8A ∷ u8 (bit_or 0x80 (length bs)) ∷ ms) (mask_key_bytes key bs)
    ∙ rw (l, a, b, c, d) refl
