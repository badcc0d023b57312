-- ===== src/Ws/Receive.antt =====
-- `RecvText` of src/model/ws_client.cpp over the frames of a server: pings are answered, pongs are
-- passed over, and the first text is returned.
use e_trace_diag.Prelude.{
  ℕ, zero, suc, ◌≤◌, ◌<◌, true, List, [], ◌∷◌, ◌++◌, ◌≡◌, refl, ap, ◌∙◌, some, arith, length, All,
  append_assoc, append-nil,
}
use e_trace_diag.Ws.Reader.{IsOpen, joined}
use e_trace_diag.Ws.RoundTrip.{server_frame, server_frame-Reads, max_payload}
use e_trace_diag.Ws.Answers.{answer_frame, pong_frame-answer}
use e_trace_diag.Ws.Client.{WsClient, text, recv_text}
use e_trace_diag.Ws.Turns.{
  Control, ping, pong, control_frame, IsShort, control_frames, pongs, control_turn, last_turn,
}

pongs-cons :
    (key : ℕ) (ctl : Control) (cs : List Control)
    → pongs key (ctl ∷ cs) ≡ pongs key (ctl ∷ []) ++ pongs key cs
pongs-cons key (ping bs) cs = rw append-nil refl
pongs-cons key (pong bs) cs = refl

wires :
    (key key1 : ℕ) (ctl : Control) (cs : List Control) (a b d : List ℕ)
    → key1 ≡ key
    → b ≡ a ++ pongs key (ctl ∷ [])
    → d ≡ b ++ pongs key1 cs
    → d ≡ a ++ pongs key (ctl ∷ cs)
wires key key1 ctl cs a b d k e f =
    cc (append_assoc a (pongs key (ctl ∷ [])) (pongs key cs), pongs-cons key ctl cs)

replies_lem :
    (cs : List Control) (fuel : ℕ) (c : WsClient) (msg rest : List ℕ)
    → c.is_open ≡ true
    → length cs < fuel
    → All IsShort cs
    → length msg ≤ max_payload
    → IsOpen c.inbox
    → joined c.inbox ≡ control_frames cs ++ (server_frame 1 msg ++ rest)
    → All (λ a. 256 ≤ a) c.accepts
    → length cs ≤ length c.accepts
    → (c' : WsClient) × (recv_text fuel c ≡ some (text msg, c'))
      × (joined c'.inbox ≡ rest)
      × (c'.wire ≡ c.wire ++ pongs c.mask_key cs)
replies_lem cs zero c msg rest u f short fits o e t n = absurd (omega arith)
replies_lem [] (suc fuel) c msg rest u f short fits o e t n =
    let (s', r, o', e') = server_frame-Reads 1 msg (omega arith) fits c.inbox rest o e in
    (record c { inbox = s' }, last_turn fuel c msg s' u r, e', rw append-nil refl)
replies_lem (ctl ∷ cs) (suc fuel) c msg rest u f short fits o e t n =
    let (c1, turn, o1, e1, t1, n1, u1, k1, w1) =
      control_turn fuel ctl c (control_frames cs ++ (server_frame 1 msg ++ rest)) u short.0 o
        (e ∙ append_assoc (control_frame ctl) (control_frames cs) (server_frame 1 msg ++ rest)) t
        (omega arith) in
    let (c2, r, j, w2) =
      replies_lem cs fuel c1 msg rest u1 (omega arith) short.1 fits o1 e1 t1 (omega arith) in
    (c2, turn ∙ r, j, wires c.mask_key c1.mask_key ctl cs c.wire c1.wire c2.wire k1 w1 w2)

-- The answers to the pings, in order, as the standard describes them.
abbrev pub answers : ℕ → List Control → List ℕ
answers key [] = []
answers key (ping bs ∷ cs) = answer_frame key bs ++ answers key cs
answers key (pong bs ∷ cs) = answers key cs

pongs-answers : (key : ℕ) (cs : List Control) → All IsShort cs → pongs key cs ≡ answers key cs
pongs-answers key [] h = refl
pongs-answers key (ping bs ∷ cs) h =
    ap (λ a. a ++ pongs key cs) (pong_frame-answer key bs h.0)
    ∙ ap (λ xs. answer_frame key bs ++ xs) (pongs-answers key cs h.1)
pongs-answers key (pong bs ∷ cs) h = pongs-answers key cs h.1

-- On an open connection a server sends control frames of at most 125 bytes each, and then a text of at most 64 MiB, cut
-- into pieces in any way. With more fuel than control frames, and where each `send` takes at least
-- 256 bytes and there is one for each control frame, `RecvText` returns the text, leaves what comes
-- behind it, and has written, in their order, the answers to the pings:
-- final masked frames of opcode 10 with the payload of the ping.
pub recv_text-controls :
    (cs : List Control) (fuel : ℕ) (c : WsClient) (msg rest : List ℕ)
    → c.is_open ≡ true
    → length cs < fuel
    → All IsShort cs
    → length msg ≤ max_payload
    → IsOpen c.inbox
    → joined c.inbox ≡ control_frames cs ++ (server_frame 1 msg ++ rest)
    → All (λ a. 256 ≤ a) c.accepts
    → length cs ≤ length c.accepts
    → (c' : WsClient) × (recv_text fuel c ≡ some (text msg, c'))
      × (joined c'.inbox ≡ rest)
      × (c'.wire ≡ c.wire ++ answers c.mask_key cs)
recv_text-controls cs fuel c msg rest u f short fits o e t n =
    let (c', r, j, w) = replies_lem cs fuel c msg rest u f short fits o e t n in
    (c', r, j, w ∙ ap (λ xs. c.wire ++ xs) (pongs-answers c.mask_key cs short))
