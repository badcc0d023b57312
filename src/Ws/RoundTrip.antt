-- ===== src/Ws/RoundTrip.antt =====
-- `ReadFrame` reads back what `SendText` frames (src/model/ws_client.cpp), whatever the pieces in
-- which the network delivers it, and what an RFC 6455 server sends unmasked.
use e_trace_diag.Prelude.{
  passes_at, some, ℕ, ◌+◌, ◌*◌, ◌≤◌, ◌<◌, Bool, true, false, not, List, [], ◌∷◌, ◌++◌, ◌≡◌, refl,
  sym, subst, arith, bit_and, bit_or, ltb, ◌==◌, if◌then◌else◌, length, All, append-nil, ==_iff,
}
use e_trace_diag.Ws.Bytes.{
  IsByte, key_bytes, byte_at, mask_from, mask_from_twice, length-mask_from, length_byte,
  key_bytes-IsByte, plain_length_byte,
}
use e_trace_diag.Ws.Reader.{
  Pieces, IsOpen, joined, ◌>>=◌, return, Reads, Reads-return, Reads-bind, read_exact,
  read_exact-Reads, fail,
}
use e_trace_diag.Ws.Frame.{
  bytes16, bytes64, text_frame, read_length, read_payload, read_body, read_frame,
}
use e_trace_diag.Ws.Lengths.{
  masked_text-mask_from, ext_field, len7, length_field_lem, read_length-Reads,
}

read_masked-Reads :
    (opcode : ℕ) (mkey bs : List ℕ)
    → length mkey ≡ 4
    → All IsByte mkey
    → All IsByte bs
    → Reads
        (read_payload opcode true (length bs))
        (mkey ++ (mask_from mkey 0 bs ++ []))
        (opcode, bs)
unfolding read_payload
read_masked-Reads opcode mkey bs l k h =
    Reads-bind (read_exact 4)
      (λ mk. read_exact (length bs) >>= λ payload. return (opcode, mask_from mk 0 payload)) mkey
      (mask_from mkey 0 bs ++ []) mkey (opcode, bs) (read_exact-Reads 4 mkey l)
      (Reads-bind (read_exact (length bs)) (λ payload. return (opcode, mask_from mkey 0 payload))
        (mask_from mkey 0 bs) [] (mask_from mkey 0 bs) (opcode, bs)
        (read_exact-Reads (length bs) (mask_from mkey 0 bs) (length-mask_from mkey 0 bs))
        (rw (mask_from_twice mkey 0 bs k h) (Reads-return (opcode, bs))))

read_plain-Reads :
    (opcode : ℕ) (bs : List ℕ)
    → Reads (read_payload opcode false (length bs)) (bs ++ []) (opcode, bs)
unfolding read_payload
read_plain-Reads opcode bs =
    Reads-bind (read_exact (length bs)) (λ payload. return (opcode, payload)) bs [] bs (opcode, bs)
      (read_exact-Reads (length bs) bs refl) (Reads-return (opcode, bs))

-- 64 MiB.
abbrev pub max_payload : ℕ
max_payload = 64 * 1024 * 1024

read_body-Reads :
    (opcode n : ℕ) (masked : Bool) (cs : List ℕ) (r : ℕ × List ℕ)
    → n ≤ max_payload
    → Reads (read_payload opcode masked n) cs r
    → Reads (read_body opcode masked (len7 n)) (ext_field n ++ cs) r
unfolding read_body
read_body-Reads opcode n masked cs r h hp =
    Reads-bind (read_length (len7 n))
      (λ len. if ltb max_payload len then fail else read_payload opcode masked len) (ext_field n) cs
      n r (read_length-Reads n (omega arith)) (rw fits hp)
  where
    fits : ltb max_payload n ≡ false
    fits = ground arith

len7-lt : (n : ℕ) → len7 n < 128
unfolding len7
len7-lt n = ground arith

read_frame-Reads :
    (h0 h1 : ℕ) (cs : List ℕ) (opcode : ℕ) (masked : Bool) (l : ℕ) (r : ℕ × List ℕ)
    → bit_and h0 0x0F ≡ opcode
    → not (bit_and h1 0x80 == 0) ≡ masked
    → bit_and h1 0x7F ≡ l
    → Reads (read_body opcode masked l) cs r
    → Reads read_frame (h0 ∷ h1 ∷ cs) r
unfolding read_frame byte_at
read_frame-Reads h0 h1 cs opcode masked l r e f g hb =
    Reads-bind (read_exact 2)
      (λ hdr.
        read_body (bit_and (byte_at hdr 0) 0x0F) (not (bit_and (byte_at hdr 1) 0x80 == 0))
          (bit_and (byte_at hdr 1) 0x7F))
      (h0 ∷ h1 ∷ []) cs (h0 ∷ h1 ∷ []) r (read_exact-Reads 2 (h0 ∷ h1 ∷ []) refl) (rw (e, f, g) hb)

-- `ReadFrame` reads back the frame of `SendText`: opcode 1 and the message, for a message of at most
-- 64 MiB of bytes and any key, however the bytes are cut into pieces and whatever follows them.
pub text_frame-Reads :
    (key : ℕ) (msg : List ℕ)
    → All IsByte msg
    → length msg ≤ max_payload
    → Reads read_frame (text_frame key msg) (1, msg)
unfolding text_frame
text_frame-Reads key msg h fits =
    subst (λ f. Reads read_frame f (1, msg)) (sym frame)
      (read_frame-Reads 0x81 (bit_or 0x80 (len7 n)) _ 1 true (len7 n) (1, msg) refl masked
        (length_byte (len7 n) (len7-lt n)).0
        (read_body-Reads 1 n true _ (1, msg) fits
          (read_masked-Reads 1 (key_bytes key) msg refl (key_bytes-IsByte key) h)))
  where
    n : ℕ
    n = length msg

    masked : not (bit_and (bit_or 0x80 (len7 n)) 0x80 == 0) ≡ true
    masked = rw (length_byte (len7 n) (len7-lt n)).1 refl

    frame :
        text_frame key msg
        ≡ 0x81
          ∷ bit_or 0x80 (len7 n)
          ∷ (ext_field n ++ (key_bytes key ++ (mask_from (key_bytes key) 0 msg ++ [])))
    frame = rw (length_field_lem n, masked_text-mask_from key 0 msg, append-nil)

-- The frame that RFC 6455 asks of a server: the opcode with FIN, the length without the mask bit,
-- the payload as it is.
abbrev pub server_frame : ℕ → List ℕ → List ℕ
server_frame opcode bs =
    (0x80 + opcode)
    ∷ (if ltb (length bs) 126
        then length bs ∷ bs
        else if ltb (length bs) 65536
        then 126 ∷ (bytes16 (length bs) ++ bs)
        else 127 ∷ (bytes64 (length bs) ++ bs))

opcode_cases : (o : ℕ) → o < 16 → bit_and (0x80 + o) 0x0F ≡ o
opcode_cases o h = (==_iff _ o).0 (passes_at (λ o. bit_and (0x80 + o) 0x0F == o) o 16 refl h)

server_frame_lem :
    (opcode : ℕ) (bs : List ℕ)
    → server_frame opcode bs ≡ (0x80 + opcode) ∷ len7 (length bs) ∷ (ext_field (length bs) ++ bs)
unfolding len7 ext_field
server_frame_lem opcode bs = ground arith

-- `ReadFrame` reads what a server sends, with its opcode, for a payload of at most 64 MiB.
pub server_frame-Reads :
    (opcode : ℕ) (bs : List ℕ)
    → opcode < 16
    → length bs ≤ max_payload
    → Reads read_frame (server_frame opcode bs) (opcode, bs)
server_frame-Reads opcode bs ho fits =
    subst (λ f. Reads read_frame f (opcode, bs)) (sym frame)
      (read_frame-Reads (0x80 + opcode) (len7 n) _ opcode false (len7 n) (opcode, bs)
        (opcode_cases opcode ho) plain (plain_length_byte (len7 n) (len7-lt n)).0
        (read_body-Reads opcode n false _ (opcode, bs) fits (read_plain-Reads opcode bs)))
  where
    n : ℕ
    n = length bs

    plain : not (bit_and (len7 n) 0x80 == 0) ≡ false
    plain = rw (plain_length_byte (len7 n) (len7-lt n)).1 refl

    frame : server_frame opcode bs ≡ (0x80 + opcode) ∷ len7 n ∷ (ext_field n ++ (bs ++ []))
    frame = rw append-nil (server_frame_lem opcode bs)

-- What `SendText` writes for a message of at most 64 MiB of bytes, with any key, `ReadFrame` reads
-- back: from a socket that is not shut down before, cut into pieces in any way, it returns opcode 1 and the
-- message and leaves what comes behind the frame.
pub read_frame-text_frame :
    (key : ℕ) (msg : List ℕ) (s : Pieces) (rest : List ℕ)
    → All IsByte msg
    → length msg ≤ max_payload
    → IsOpen s
    → joined s ≡ text_frame key msg ++ rest
    → (s' : Pieces) × (read_frame s ≡ some ((1, msg), s')) × IsOpen s' × (joined s' ≡ rest)
read_frame-text_frame key msg s rest h fits o e = text_frame-Reads key msg h fits s rest o e

-- What a server sends with any opcode and a payload of at most 64 MiB, `ReadFrame` reads with that
-- opcode and that payload, from an open socket, cut into pieces in any way, and leaves the rest.
pub read_frame-server_frame :
    (opcode : ℕ) (bs : List ℕ) (s : Pieces) (rest : List ℕ)
    → opcode < 16
    → length bs ≤ max_payload
    → IsOpen s
    → joined s ≡ server_frame opcode bs ++ rest
    → (s' : Pieces) × (read_frame s ≡ some ((opcode, bs), s')) × IsOpen s' × (joined s' ≡ rest)
read_frame-server_frame opcode bs s rest h fits o e = server_frame-Reads opcode bs h fits s rest o e
