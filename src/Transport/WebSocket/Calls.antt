-- ===== src/Transport/WebSocket/Calls.antt =====
-- transport/websocket/websocket.go and client/websocket.go: the two directions of a bidirectional
-- call together, under any schedule of what the two ends do.
use zara_rpc.Common.{◌≡◌, refl, ℕ, suc, List, [], ◌∷◌}
use zara_rpc.Codes.{Code, code_invalid_argument, code_internal}
use zara_rpc.Transport.Framing.{Codec}
use zara_rpc.Transport.WebSocket.{Wire, IsOrdered}
use zara_rpc.Transport.WebSocket.Laws.{
  IsRead, Half, InOrder, half_send, half_receive, half_send-InOrder, half_receive-InOrder,
}

-- What the two ends of one direction do.
pub data HalfAction (M : Type 0) : Type 0 where
  put : M → HalfAction M
  get : HalfAction M

module _ {M E S : Type 0} (C : Codec M) (error : Code → E) (N : Wire E S) (code : Code) where
  abbrev pub half_act : HalfAction M → Half M S → Half M S
  half_act (put m) h = half_send C error N m h
  half_act get h = half_receive C error N code h

  abbrev pub half_run : List (HalfAction M) → Half M S → Half M S
  half_run [] h = h
  half_run (a ∷ acts) h = half_run acts (half_act a h)

  pub half_run-InOrder :
      (O : IsOrdered N) (L : IsRead C) (acts : List (HalfAction M)) (h : Half M S)
      → InOrder C error N O h
      → InOrder C error N O (half_run acts h)
  half_run-InOrder O L [] h i = i
  half_run-InOrder O L (put m ∷ acts) h i =
      half_run-InOrder O L acts (half_send C error N m h) (half_send-InOrder C error N O m h i)
  half_run-InOrder O L (get ∷ acts) h i =
      half_run-InOrder O L acts (half_receive C error N code h)
        (half_receive-InOrder C error N O L code h i)

abbrev pub gets : {M : Type 0} → List (HalfAction M) → ℕ
gets [] = 0
gets (put m ∷ acts) = gets acts
gets (get ∷ acts) = suc (gets acts)

-- A call: requests go up, answers go down.
pub record Call (Q A U D : Type 0) : Type 0 where
  pub up : Half Q U
  pub down : Half A D

pub data Action (Q A : Type 0) : Type 0 where
  client_send : Q → Action Q A
  server_send : A → Action Q A
  server_receive client_receive : Action Q A

abbrev pub requests : {Q A : Type 0} → List (Action Q A) → List (HalfAction Q)
requests [] = []
requests (client_send m ∷ acts) = put m ∷ requests acts
requests (server_receive ∷ acts) = get ∷ requests acts
requests (server_send m ∷ acts) = requests acts
requests (client_receive ∷ acts) = requests acts

abbrev pub answers : {Q A : Type 0} → List (Action Q A) → List (HalfAction A)
answers [] = []
answers (client_send m ∷ acts) = answers acts
answers (server_receive ∷ acts) = answers acts
answers (server_send m ∷ acts) = put m ∷ answers acts
answers (client_receive ∷ acts) = get ∷ answers acts

-- A direction at its start, and a call.
abbrev pub new_half : {M S : Type 0} → S → Half M S
new_half s = record { wire = s; sent = []; seen = [] }

abbrev pub new_call : {Q A U D : Type 0} → U → D → Call Q A U D
new_call u d = record { up = new_half u; down = new_half d }

module _ {Q A E U D : Type 0} (CQ : Codec Q) (CA : Codec A) (error : Code → E) (NU : Wire E U)
    (ND : Wire E D) where
  -- A step of one end: `BidiStream` of the server or `wsClientStream` of the client.
  unfoldable pub act : Action Q A → Call Q A U D → Call Q A U D
  unfolding half_send half_receive
  act (client_send m) c = record { up = half_send CQ error NU m c.up; down = c.down }
  act (server_send m) c = record { up = c.up; down = half_send CA error ND m c.down }
  act server_receive c = record {
    up = half_receive CQ error NU code_invalid_argument c.up;
    down = c.down;
  }
  act client_receive c = record { up = c.up; down = half_receive CA error ND code_internal c.down }

  unfoldable pub run : List (Action Q A) → Call Q A U D → Call Q A U D
  unfolding act
  run [] c = c
  run (a ∷ acts) c = run acts (act a c)

  abbrev pub call_after : List (Action Q A) → U → D → Call Q A U D
  call_after acts u d = run acts (new_call u d)

  pub run-up :
      (acts : List (Action Q A)) (c : Call Q A U D)
      → (run acts c).up ≡ half_run CQ error NU code_invalid_argument (requests acts) c.up
  unfolding run act
  run-up [] c = refl
  run-up (client_send m ∷ acts) c = run-up acts (act (client_send m) c)
  run-up (server_send m ∷ acts) c = run-up acts (act (server_send m) c)
  run-up (server_receive ∷ acts) c = run-up acts (act server_receive c)
  run-up (client_receive ∷ acts) c = run-up acts (act client_receive c)

  pub run-down :
      (acts : List (Action Q A)) (c : Call Q A U D)
      → (run acts c).down ≡ half_run CA error ND code_internal (answers acts) c.down
  unfolding run act
  run-down [] c = refl
  run-down (client_send m ∷ acts) c = run-down acts (act (client_send m) c)
  run-down (server_send m ∷ acts) c = run-down acts (act (server_send m) c)
  run-down (server_receive ∷ acts) c = run-down acts (act server_receive c)
  run-down (client_receive ∷ acts) c = run-down acts (act client_receive c)
