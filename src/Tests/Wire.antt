-- ===== src/Tests/Wire.antt =====
-- Frames through the loops of `WsClient` (src/model/ws_client.cpp).
use e_trace_diag.Prelude.{ℕ, ◌≡◌, refl, true, List, [], ◌∷◌, ◌++◌, some, arith}
use e_trace_diag.Ws.Reader.{Pieces, IsOpen, joined}
use e_trace_diag.Ws.Frame.{text_frame, read_frame}
use e_trace_diag.Ws.RoundTrip.{read_frame-text_frame}
use e_trace_diag.Ws.Client.{WsClient, recv_text, text}
use e_trace_diag.Ws.Turns.{Control, ping, pong}
use e_trace_diag.Ws.Receive.{answers, recv_text-controls}

-- "hi", and its frame with the key 0x01020304, one byte at a time.
abbrev hi : List ℕ
hi = 104 ∷ 105 ∷ []

abbrev hi_pieces : Pieces
hi_pieces = (129 ∷ []) ∷ (130 ∷ 1 ∷ 2 ∷ []) ∷ (3 ∷ 4 ∷ 105 ∷ []) ∷ (107 ∷ 9 ∷ []) ∷ []

read_frame-text_frame_example :
    (s' : Pieces) × (read_frame hi_pieces ≡ some ((1, hi), s')) × IsOpen s' × (joined s' ≡ 9 ∷ [])
unfolding text_frame
read_frame-text_frame_example =
    read_frame-text_frame 16909060 hi hi_pieces (9 ∷ []) (omega arith) (omega arith) tt refl

abbrev greeting_pieces : Pieces
greeting_pieces = (129 ∷ 2 ∷ []) ∷ (104 ∷ 105 ∷ 7 ∷ []) ∷ []

abbrev control : List Control
control = ping (5 ∷ []) ∷ pong [] ∷ []

abbrev client : WsClient
client = record {
  is_open = true;
  mask_key = 16909060;
  inbox = (137 ∷ 1 ∷ 5 ∷ 138 ∷ []) ∷ (0 ∷ 129 ∷ 2 ∷ 104 ∷ []) ∷ (105 ∷ 8 ∷ []) ∷ [];
  accepts = 256 ∷ 256 ∷ [];
  wire = [];
}

recv_text-controls_example :
    (c' : WsClient) × (recv_text 3 client ≡ some (text hi, c'))
    × (joined c'.inbox ≡ 8 ∷ [])
    × (c'.wire ≡ client.wire ++ answers client.mask_key control)
recv_text-controls_example =
    recv_text-controls control 3 client hi (8 ∷ []) refl (omega arith) (omega arith) (omega arith)
      tt refl (omega arith) (omega arith)
