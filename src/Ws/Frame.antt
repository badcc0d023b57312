-- ===== src/Ws/Frame.antt =====
-- The frame that `SendText` of src/model/ws_client.cpp builds, and `ReadFrame`.
use e_trace_diag.Prelude.{
  ℕ, suc, ◌+◌, ◌*◌, ◌/◌, ◌%◌, ◌^◌, Bool, not, List, [], ◌∷◌, ◌++◌, bit_and, bit_or, bit_xor, ltb,
  ◌==◌, if◌then◌else◌, length, u64,
}
use e_trace_diag.Ws.Bytes.{key_byte, key_bytes, byte_at, mask_from}
use e_trace_diag.Ws.Reader.{Read, ◌>>=◌, return, fail, read_exact}

-- `n` in two bytes and in eight, the highest first.
unfoldable pub bytes16 : ℕ → List ℕ
bytes16 n = (n / 2 ^ 8 % 256) ∷ (n % 256) ∷ []

unfoldable pub bytes64 : ℕ → List ℕ
bytes64 n =
    (n / 2 ^ 56 % 256)
    ∷ (n / 2 ^ 48 % 256)
    ∷ (n / 2 ^ 40 % 256)
    ∷ (n / 2 ^ 32 % 256)
    ∷ (n / 2 ^ 24 % 256)
    ∷ (n / 2 ^ 16 % 256)
    ∷ (n / 2 ^ 8 % 256)
    ∷ (n % 256)
    ∷ []

-- The second byte and the extended length of a masked frame of `n` bytes.
unfoldable pub length_field : ℕ → List ℕ
unfolding bytes16 bytes64
length_field n =
    if ltb n 126
    then bit_or 0x80 n ∷ []
    else if ltb n 65536
    then bit_or 0x80 126 ∷ bytes16 n
    else bit_or 0x80 127 ∷ bytes64 n

-- The payload loop: `msg[i] ^ ((mask_key_ >> ((3 - (i % 4)) * 8)) & 0xFF)`, from index `i` on.
unfoldable pub masked_text : ℕ → ℕ → List ℕ → List ℕ
unfolding key_byte
masked_text key i [] = []
masked_text key i (b ∷ bs) = bit_xor b (key_byte key (i % 4)) ∷ masked_text key (suc i) bs

-- The frame of `SendText`: FIN and text, the length, the key, the masked payload.
unfoldable pub text_frame : ℕ → List ℕ → List ℕ
unfolding length_field key_bytes masked_text
text_frame key msg = 0x81 ∷ (length_field (length msg) ++ (key_bytes key ++ masked_text key 0 msg))

-- `len = (len << 8) | ext[i]` over the bytes; the low byte of the shifted length is 0, so `|` adds.
unfoldable pub shift_in : ℕ → List ℕ → ℕ
shift_in len [] = len
shift_in len (b ∷ bs) = shift_in (u64 (len * 2 ^ 8 + b)) bs

unfoldable pub read_length16 : Read ℕ
unfolding byte_at
read_length16 = do ext ← read_exact 2; return (byte_at ext 0 * 2 ^ 8 + byte_at ext 1)

unfoldable pub read_length64 : Read ℕ
unfolding shift_in
read_length64 = do ext ← read_exact 8; return (shift_in 0 ext)

-- The extended length that follows, where the seven bits ask for one.
unfoldable pub read_length : ℕ → Read ℕ
unfolding read_length16 read_length64
read_length len =
    if len == 126 then read_length16 else if len == 127 then read_length64 else return len

-- The key, where the frame is masked, and the payload.
unfoldable pub read_payload : ℕ → Bool → ℕ → Read (ℕ × List ℕ)
unfolding mask_from
read_payload opcode masked len = do
  mkey ← if masked then read_exact 4 else return (0 ∷ 0 ∷ 0 ∷ 0 ∷ [])
  payload ← read_exact len
  return (opcode, if masked then mask_from mkey 0 payload else payload)

-- `ReadFrame` behind the header: the length with its cap of 64 MiB, the key and the payload.
unfoldable pub read_body : ℕ → Bool → ℕ → Read (ℕ × List ℕ)
unfolding read_length read_payload
read_body opcode masked len7 = do
  len ← read_length len7
  if ltb (64 * 1024 * 1024) len then fail else read_payload opcode masked len

unfoldable pub read_frame : Read (ℕ × List ℕ)
unfolding read_body byte_at
read_frame = do
  hdr ← read_exact 2
  read_body (bit_and (byte_at hdr 0) 0x0F) (not (bit_and (byte_at hdr 1) 0x80 == 0))
      (bit_and (byte_at hdr 1) 0x7F)
