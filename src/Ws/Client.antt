-- ===== src/Ws/Client.antt =====
-- `WsClient` of src/model/ws_client.h and src/model/ws_client.cpp once it is connected: `SendText`
-- and the loop of `RecvText`.
use e_trace_diag.Prelude.{
  ℕ, zero, suc, Bool, false, List, [], ◌∷◌, ◌++◌, Option, some, none, bit_or, ◌==◌, if◌then◌else◌,
  length, u8,
}
use e_trace_diag.Ws.Bytes.{key_bytes, mask_from}
use e_trace_diag.Ws.Reader.{Pieces}
use e_trace_diag.Ws.Frame.{text_frame, read_frame}
use e_trace_diag.Ws.Sender.{send_loop}

-- The members, and the network at the other side of the file descriptor: what it will deliver, what
-- each `send` will take, and what it has taken so far.
pub record WsClient : Type 0 where
  pub is_open : Bool  -- `fd_ >= 0`
  pub mask_key : ℕ
  pub inbox : Pieces
  pub accepts : List ℕ
  pub wire : List ℕ

unfoldable pub close : WsClient → WsClient
close c = record c { is_open = false }

unfoldable pub send_bytes : List ℕ → WsClient → Bool × WsClient
unfolding send_loop
send_bytes frame c =
    let sent = send_loop c.accepts frame in
    (sent.ok, record c { accepts = sent.accepts; wire = c.wire ++ sent.written })

unfoldable pub send_text : List ℕ → WsClient → Bool × WsClient
unfolding send_bytes text_frame
send_text msg c = if c.is_open then send_bytes (text_frame c.mask_key msg) c else (false, c)

-- The answer to a ping; the length byte is cut to eight bits.
unfoldable pub pong_frame : ℕ → List ℕ → List ℕ
unfolding key_bytes mask_from
pong_frame key payload =
    0x8A
    ∷ u8 (bit_or 0x80 (length payload))
    ∷ (key_bytes key ++ mask_from (key_bytes key) 0 payload)

-- What `RecvText` comes back with: `true` with the text in `out`, or `false`.
pub data Received : Type 0 where
  text : List ℕ → Received
  failed : Received

-- What one frame makes of the loop: it ends with a result, or goes on.
pub data Turn : Type 0 where
  ends : Received → WsClient → Turn
  goes_on : WsClient → Turn

unfoldable pub answer_ping : List ℕ → WsClient → Turn
answer_ping payload c =
    let (sent, c') = send_bytes (pong_frame c.mask_key payload) c in
    if sent then goes_on c' else ends failed c'

-- The `switch` over the opcode.
unfoldable pub handle_frame : ℕ → List ℕ → WsClient → Turn
unfolding close answer_ping
handle_frame opcode payload c =
    if opcode == 0x1
    then ends (text payload) c
    else if opcode == 0x0
    then ends (text []) c
    else if opcode == 0x8
    then ends failed (close c)
    else if opcode == 0x9
    then answer_ping payload c
    else if opcode == 0xA
    then goes_on c
    else ends failed c

-- `ReadFrame` on the descriptor: on a closed one its first wait times out.
unfoldable pub next_frame : WsClient → Option ((ℕ × List ℕ) × Pieces)
unfolding read_frame
next_frame c = if c.is_open then read_frame c.inbox else none

-- The loop, on fuel; `none` means that the fuel ran out. A frame that cannot be read ends it, and
-- what then is left in the socket is not used again: every caller closes it.
unfoldable pub recv_text : ℕ → WsClient → Option (Received × WsClient)
unfolding next_frame handle_frame
recv_text zero c = none
recv_text (suc fuel) c = elim (next_frame c) [
  | none ↦ some (failed, record c { inbox = [] })
  | some ((opcode, payload), rest) ↦
      elim (handle_frame opcode payload (record c { inbox = rest })) [
        | ends r c' ↦ some (r, c')
        | goes_on c' ↦ recv_text fuel c'
      ]
]
