-- ===== src/Examples/Sockets.antt =====
-- Calls over WebSockets at concrete inputs, on a connection that is a queue of frames.
use zara_rpc.Common.{
  subst, true, ◌≤◌, length, ◌⊎◌, ◌≡◌, refl, sym, false, none, some, List, [], ◌∷◌, ◌++◌, Text,
  codes, inl, inr, arith,
}
use zara_rpc.Codes.{Code}
use zara_rpc.Transport.Framing.{Codec}
use zara_rpc.Transport.WebSocket.{
  Frame, Reading, arrived, waiting, Wire, IsOrdered, is_frame, send, open_frame, receive,
}
use zara_rpc.Transport.WebSocket.Laws.{IsRead, half_send, half_receive}
use zara_rpc.Transport.WebSocket.Calls.{
  call_after, Action, client_send, server_send, server_receive, client_receive, act, run,
}
use zara_rpc.Transport.WebSocket.Delivery.{Fits, read_limit, Delivers, run-seen, run-arrives}

-- The codec of texts as they are.
abbrev pub plain : Codec Text
plain = record {
  is_binary = false;
  marshal = λ m. some m;
  unmarshal = λ s. some s;
  encode64 = λ s. s;
  decode64 = λ s. some s;
}

abbrev pub pop : List Frame → Reading Code × List Frame
pop [] = (waiting, [])
pop (f ∷ fs) = (arrived f, fs)

abbrev pub queue : Wire Code (List Frame)
queue = record { write = λ f s. (none, s ++ (f ∷ [])); read = pop }

pub plain-IsRead : IsRead plain
plain-IsRead m raw h = sym h

pub pop_first :
    (s : List Frame)
    → ((f : Frame) × ((pop s).0 ≡ arrived f) × (s ≡ f ∷ (pop s).1))
      ⊎ ((is_frame (pop s).0 ≡ false) × ((pop s).1 ≡ s))
pop_first [] = inr (refl, refl)
pop_first (f ∷ fs) = inl (f, refl, refl)

abbrev pub queue_order : IsOrdered queue
queue_order = record {
  pending = λ s. s;
  write_pending = λ f s h. refl;
  refuse_pending = λ f s e h. absurd cc;
  read_pending = pop_first;
}

-- The queue is always open.
abbrev pub Open : List Frame → Type 0
Open s = Unit

pub queue_arrived :
    (s : List Frame) (f : Frame) (fs : List Frame)
    → Open s
    → s ≡ f ∷ fs
    → length f.content ≤ read_limit
    → is_frame (pop s).0 ≡ true
queue_arrived [] f fs up h n = absurd cc
queue_arrived (g ∷ s) f fs up h n = refl

abbrev pub queue_delivers : Delivers queue queue_order
queue_delivers = record { IsOpen = λ s. Open s; read_arrived = queue_arrived }

pub plain-Fits : (m : Text) → length m ≤ read_limit → Fits plain m
plain-Fits m n raw h = let same : m ≡ raw = cc in subst (λ (r : Text). length r ≤ read_limit) same n

-- Two requests and an answer, of which the server has read one; and more steps.
abbrev before : List (Action Text Text)
before =
    client_send (codes "a")
    ∷ client_send (codes "b")
    ∷ server_receive
    ∷ server_send (codes "x")
    ∷ []

abbrev after : List (Action Text Text)
after = client_send (codes "c") ∷ client_receive ∷ server_receive ∷ []

run-seen_example :
    ((ms : List Text) × ((call_after plain plain (λ c. c) queue queue before [] []).up.sent
        ≡ (call_after plain plain (λ c. c) queue queue before [] []).up.seen ++ ms))
    × ((ms : List Text) × ((call_after plain plain (λ c. c) queue queue before [] []).down.sent
          ≡ (call_after plain plain (λ c. c) queue queue before [] []).down.seen ++ ms))
run-seen_example =
    run-seen plain plain (λ c. c) queue queue queue_order queue_order plain-IsRead plain-IsRead
      before [] [] refl refl

run-arrives_example :
    ((more : List Text) × ((run plain plain
          (λ c. c)
          queue
          queue
          after
          (call_after plain plain (λ c. c) queue queue before [] [])).up.seen
        ≡ (call_after plain plain (λ c. c) queue queue before [] []).up.sent ++ more))
    × ((more : List Text) × ((run plain plain
            (λ c. c)
            queue
            queue
            after
            (call_after plain plain (λ c. c) queue queue before [] [])).down.seen
          ≡ (call_after plain plain (λ c. c) queue queue before [] []).down.sent ++ more))
unfolding run act half_send half_receive send receive open_frame
run-arrives_example =
    run-arrives plain plain (λ c. c) queue queue queue_order queue_order plain-IsRead plain-IsRead
      queue_delivers queue_delivers before after [] [] refl refl
      (plain-Fits (codes "a") (omega arith), (plain-Fits (codes "b") (omega arith), tt))
      (plain-Fits (codes "x") (omega arith), tt) (tt, (tt, tt)) (tt, tt) (omega arith) (omega arith)
