-- ===== src/Ws/Sender.antt =====
-- The loop `while (sent < frame.size()) send(...)` of `SendText` and `RecvText`
-- (src/model/ws_client.cpp).
use e_trace_diag.Prelude.{
  ℕ, zero, suc, ◌≤◌, Bool, true, false, List, [], ◌∷◌, ◌++◌, ◌≡◌, ◌↔◌, ◌≢◌, refl, ap, ◌∙◌, arith,
  append_assoc, append-nil, take, drop, length,
}

-- How the loop ended, the bytes that the network took, and what later calls of `send` will take.
pub record Sent : Type 0 where
  pub ok : Bool
  pub written : List ℕ
  pub accepts : List ℕ

-- `accepts` holds what each call of `send` takes at most: 0 is an error, as is the end of the list.
unfoldable pub send_loop : List ℕ → List ℕ → Sent
send_loop accepts [] = record { ok = true; written = []; accepts = accepts }
send_loop [] (b ∷ bs) = record { ok = false; written = []; accepts = [] }
send_loop (zero ∷ more) (b ∷ bs) = record { ok = false; written = []; accepts = more }
send_loop (suc k ∷ more) (b ∷ bs) =
    let r = send_loop more (drop (suc k) (b ∷ bs)) in
    record r { written = take (suc k) (b ∷ bs) ++ r.written }

take-append-drop : (n : ℕ) (xs : List ℕ) → take n xs ++ drop n xs ≡ xs
take-append-drop zero xs = refl
take-append-drop (suc n) [] = refl
take-append-drop (suc n) (x ∷ xs) = ap (◌∷◌ x) (take-append-drop n xs)

-- However the network takes the bytes, what it took is a front of the frame, and the loop reports
-- success exactly when nothing of the frame is left.
pub send_loop-prefix :
    (accepts frame : List ℕ)
    → let r = send_loop accepts frame in
      (rest : List ℕ) × (r.written ++ rest ≡ frame) × ((r.ok ≡ true) ↔ (rest ≡ []))
unfolding send_loop
send_loop-prefix accepts [] = ([], refl, ((λ _. refl), (λ _. refl)))
send_loop-prefix [] (b ∷ bs) = (b ∷ bs, refl, ((λ e. cc), (λ e. cc)))
send_loop-prefix (zero ∷ more) (b ∷ bs) = (b ∷ bs, refl, ((λ e. cc), (λ e. cc)))
send_loop-prefix (suc k ∷ more) (b ∷ bs) =
    let (rest, e, f) = send_loop-prefix more (drop (suc k) (b ∷ bs)) in
    (
      rest,
      append_assoc (take (suc k) (b ∷ bs)) (send_loop more (drop (suc k) (b ∷ bs))).written rest
          ∙ ap (◌++◌ (take (suc k) (b ∷ bs))) e
          ∙ take-append-drop (suc k) (b ∷ bs),
      f,
    )

take_all : (n : ℕ) (xs : List ℕ) → length xs ≤ n → take n xs ≡ xs
take_all zero [] h = refl
take_all zero (x ∷ xs) h = absurd (omega arith)
take_all (suc n) [] h = refl
take_all (suc n) (x ∷ xs) h = ap (◌∷◌ x) (take_all n xs (omega arith))

drop_all : (n : ℕ) (xs : List ℕ) → length xs ≤ n → drop n xs ≡ []
drop_all zero [] h = refl
drop_all zero (x ∷ xs) h = absurd (omega arith)
drop_all (suc n) [] h = refl
drop_all (suc n) (x ∷ xs) h = drop_all n xs (omega arith)

-- One call of `send` that takes the whole of a frame.
pub send_loop_whole :
    (a : ℕ) (more frame : List ℕ)
    → length frame ≤ a
    → frame ≢ []
    → send_loop (a ∷ more) frame ≡ record { ok = true; written = frame; accepts = more }
unfolding send_loop
send_loop_whole a more [] h ne = absurd (ne refl)
send_loop_whole zero more (b ∷ bs) h ne = absurd (omega arith)
send_loop_whole (suc k) more (b ∷ bs) h ne =
    rw (take_all k bs (omega arith), drop_all k bs (omega arith), append-nil)
