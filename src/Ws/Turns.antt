-- ===== src/Ws/Turns.antt =====
-- One turn of the loop of `RecvText` (src/model/ws_client.cpp) over a control frame or a text.
use e_trace_diag.Prelude.{
  Option, ℕ, suc, ◌+◌, ◌≤◌, ◌<◌, true, List, [], ◌∷◌, ◌++◌, ◌≡◌, ◌≢◌, refl, ap, some, arith, length,
  All, append-nil,
}
use e_trace_diag.Ws.Bytes.{key_bytes, length-mask_from}
use e_trace_diag.Ws.Reader.{Pieces, IsOpen, joined}
use e_trace_diag.Ws.Frame.{read_frame}
use e_trace_diag.Ws.RoundTrip.{server_frame, server_frame-Reads}
use e_trace_diag.Ws.Sender.{send_loop_whole}
use e_trace_diag.Ws.Client.{
  WsClient, send_bytes, pong_frame, text, answer_ping, handle_frame, goes_on, next_frame, recv_text,
}

-- A control frame that may come before the text.
pub data Control : Type 0 where
  ping pong : List ℕ → Control

abbrev pub control_frame : Control → List ℕ
control_frame (ping bs) = server_frame 9 bs
control_frame (pong bs) = server_frame 10 bs

-- RFC 6455: a control frame carries at most 125 bytes.
abbrev pub IsShort : Control → Type 0
IsShort (ping bs) = length bs < 126
IsShort (pong bs) = length bs < 126

abbrev pub control_frames : List Control → List ℕ
control_frames [] = []
control_frames (c ∷ cs) = control_frame c ++ control_frames cs

-- The answers to the pings, in order.
abbrev pub pongs : ℕ → List Control → List ℕ
pongs key [] = []
pongs key (ping bs ∷ cs) = pong_frame key bs ++ pongs key cs
pongs key (pong bs ∷ cs) = pongs key cs

length-pong_frame : (key : ℕ) (bs : List ℕ) → length (pong_frame key bs) ≡ length bs + 6
unfolding pong_frame key_bytes
length-pong_frame key bs = omega (arith, length-mask_from (key_bytes key) 0 bs)

pong_frame-nonempty : (key : ℕ) (bs : List ℕ) → pong_frame key bs ≢ []
unfolding pong_frame
pong_frame-nonempty key bs e = cc

abbrev pub Takes : List ℕ → Type 0
Takes accepts = All (λ a. 256 ≤ a) accepts

send_pong :
    (c : WsClient) (a : ℕ) (accepts bs : List ℕ)
    → c.accepts ≡ a ∷ accepts
    → 256 ≤ a
    → length bs < 126
    → send_bytes (pong_frame c.mask_key bs) c
      ≡ (true, record c { accepts = accepts; wire = c.wire ++ pong_frame c.mask_key bs })
unfolding send_bytes
send_pong c a accepts bs e h l =
    rw
      (
        e,
        send_loop_whole a accepts (pong_frame c.mask_key bs)
            (omega (arith, length-pong_frame c.mask_key bs)) (pong_frame-nonempty c.mask_key bs),
      )
      refl

next_frame-read :
    (c : WsClient) (r : Option ((ℕ × List ℕ) × Pieces))
    → c.is_open ≡ true
    → read_frame c.inbox ≡ r
    → next_frame c ≡ r
unfolding next_frame
next_frame-read c r u e = ground (arith, u, e)

one_turn :
    (fuel : ℕ) (c : WsClient) (opcode : ℕ) (bs : List ℕ) (s' : Pieces) (c' : WsClient)
    → c.is_open ≡ true
    → read_frame c.inbox ≡ some ((opcode, bs), s')
    → handle_frame opcode bs (record c { inbox = s' }) ≡ goes_on c'
    → recv_text (suc fuel) c ≡ recv_text fuel c'
unfolding recv_text
one_turn fuel c opcode bs s' c' u e f = rw (next_frame-read c _ u e, f, recv_text) refl

handle_pong : (bs : List ℕ) (c : WsClient) → handle_frame 10 bs c ≡ goes_on c
unfolding handle_frame
handle_pong bs c = refl

handle_ping :
    (bs : List ℕ) (c c' : WsClient)
    → send_bytes (pong_frame c.mask_key bs) c ≡ (true, c')
    → handle_frame 9 bs c ≡ goes_on c'
unfolding handle_frame answer_ping
handle_ping bs c c' e = rw (e) refl

Takes-cons :
    (xs : List ℕ)
    → Takes xs
    → 0 < length xs
    → (a : ℕ) × (more : List ℕ) × (xs ≡ a ∷ more) × (256 ≤ a) × Takes more
Takes-cons [] t n = absurd (omega arith)
Takes-cons (a ∷ more) t n = (a, more, refl, t.0, t.1)

-- What a control frame does: the loop goes on, with the answer written if it is a ping.
pub control_turn :
    (fuel : ℕ) (ctl : Control) (c : WsClient) (rest : List ℕ)
    → c.is_open ≡ true
    → IsShort ctl
    → IsOpen c.inbox
    → joined c.inbox ≡ control_frame ctl ++ rest
    → Takes c.accepts
    → 0 < length c.accepts
    → (c' : WsClient) × (recv_text (suc fuel) c ≡ recv_text fuel c')
      × IsOpen c'.inbox
      × (joined c'.inbox ≡ rest)
      × Takes c'.accepts
      × (length c.accepts ≤ suc (length c'.accepts))
      × (c'.is_open ≡ true)
      × (c'.mask_key ≡ c.mask_key)
      × (c'.wire ≡ c.wire ++ pongs c.mask_key (ctl ∷ []))
control_turn fuel (pong bs) c rest u short o e t n =
    let (s', r, o', e') = server_frame-Reads 10 bs (omega arith) (omega arith) c.inbox rest o e in
    (
      record c { inbox = s' },
      one_turn fuel c 10 bs s' _ u r (handle_pong bs (record c { inbox = s' })),
      o',
      e',
      t,
      omega arith,
      u,
      refl,
      rw append-nil refl,
    )
control_turn fuel (ping bs) c rest u short o e t n =
    let (s', r, o', e') = server_frame-Reads 9 bs (omega arith) (omega arith) c.inbox rest o e in
    let (a, more, x, h, t') = Takes-cons c.accepts t n in
    let c' : WsClient = record c {
      inbox = s';
      accepts = more;
      wire = c.wire ++ pong_frame c.mask_key bs;
    } in
    (
      c',
      one_turn fuel c 9 bs s' c' u r (
          handle_ping bs (record c { inbox = s' }) c'
            (send_pong (record c { inbox = s' }) a more bs x h short)),
      o',
      e',
      t',
      omega (arith, ap length x),
      u,
      refl,
      rw append-nil refl,
    )

pub last_turn :
    (fuel : ℕ) (c : WsClient) (msg : List ℕ) (s' : Pieces)
    → c.is_open ≡ true
    → read_frame c.inbox ≡ some ((1, msg), s')
    → recv_text (suc fuel) c ≡ some (text msg, record c { inbox = s' })
unfolding recv_text handle_frame
last_turn fuel c msg s' u e = rw (next_frame-read c _ u e, recv_text) refl
