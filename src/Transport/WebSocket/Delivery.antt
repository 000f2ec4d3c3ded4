-- ===== src/Transport/WebSocket/Delivery.antt =====
-- transport/websocket/websocket.go and client/websocket.go: that the messages of a call arrive, and
-- in the order in which they were sent.
use zara_rpc.Common.{
  All, Text, some, ℕ, ◌≡◌, refl, sym, ap, ◌∙◌, suc, ◌≤◌, true, List, [], ◌∷◌, ◌++◌, length,
  append_assoc, append-nil, arith, ◌⊎◌, inl, inr, subst,
}
use zara_rpc.Codes.{Code, code_invalid_argument, code_internal}
use zara_rpc.Transport.Framing.{Codec}
use zara_rpc.Transport.WebSocket.{
  message, lost, nothing_yet, Got, Got, receive, Frame, Wire, IsOrdered, is_frame,
}
use zara_rpc.Transport.WebSocket.Laws.{
  IsRead, seen_then, Half, Carries, InOrder, half_send, half_receive, send-pending, receive-pending,
  Carries-append,
}
use zara_rpc.Transport.WebSocket.Calls.{
  half_act, new_half, new_call, call_after, HalfAction, put, get, half_run, half_run-InOrder, gets,
  Action, requests, answers, run, run-up, run-down,
}

-- The documented read limit of a new connection, in bytes.
abbrev pub read_limit : ℕ
read_limit = 32768

-- The message is within the limit, as far as the codec encodes it.
abbrev pub Fits : {M : Type 0} → Codec M → M → Type 0
Fits C m = (raw : Text) → C.marshal m ≡ some raw → length raw ≤ read_limit

-- The documented reading of a connection that is open: a frame on its way arrives at the next
-- read, if it is no longer than the read limit, which the code leaves as it is.
pub record Delivers {E S : Type 0} (N : Wire E S) (O : IsOrdered N) : Type 1 where
  pub IsOpen : S → Type 0
  pub read_arrived :
      (s : S) (f : Frame) (fs : List Frame)
      → IsOpen s
      → O.pending s ≡ f ∷ fs
      → length f.content ≤ read_limit
      → is_frame (N.read s).0 ≡ true

All-behind : {M : Type 0} (P : M → Type 0) (xs ys : List M) → All P (xs ++ ys) → All P ys
All-behind P [] ys h = h
All-behind P (x ∷ xs) ys (here, there) = All-behind P xs ys there

Carries-first :
    {M : Type 0} (C : Codec M) (fs : List Frame) (m : M) (ms : List M)
    → Carries C fs (m ∷ ms)
    → (f : Frame) × (rest : List Frame) × (fs ≡ f ∷ rest) × (C.marshal m ≡ some f.content)
Carries-first C [] m ms c = elim c [ ]
Carries-first C (f ∷ fs) m ms ((raw, t), c) = (f, fs, refl, raw)

length-Carries :
    {M : Type 0} (C : Codec M) (fs : List Frame) (ms : List M)
    → Carries C fs ms
    → length fs ≡ length ms
length-Carries C [] [] c = refl
length-Carries C [] (m ∷ ms) c = elim c [ ]
length-Carries C (f ∷ fs) [] c = elim c [ ]
length-Carries C (f ∷ fs) (m ∷ ms) (here, there) = ap suc (length-Carries C fs ms there)

regroup_next :
    {M : Type 0} (seen front more : List M) (m : M)
    → ((seen ++ (m ∷ [])) ++ front) ++ more ≡ (seen ++ (m ∷ front)) ++ more
regroup_next seen front more m = simp append_assoc

module _ {M E S : Type 0} (C : Codec M) (error : Code → E) (N : Wire E S) (O : IsOrdered N) where
  half_send-Carries :
      (m : M) (h : Half M S) (ms : List M)
      → Carries C (O.pending h.wire) ms
      → Carries C (O.pending (half_send C error N m h).wire) ms
        ⊎ Carries C (O.pending (half_send C error N m h).wire) (ms ++ (m ∷ []))
  unfolding half_send
  half_send-Carries m h ms c = elim (send-pending C error N O m h.wire) [
    | inl (e, failed, same) ↦ inl (subst (λ fs. Carries C fs ms) (sym same) c)
    | inr (f, done, longer, raw, t) ↦ inr (
        subst (λ fs. Carries C fs (ms ++ (m ∷ []))) (sym longer)
          (Carries-append C (O.pending h.wire) ms f m c raw t))
  ]

  half_send-seen : (m : M) (h : Half M S) → (half_send C error N m h).seen ≡ h.seen
  unfolding half_send
  half_send-seen m h = refl

  -- The connection is open in front of each of the steps.
  abbrev pub StaysOpen : Delivers N O → Code → List (HalfAction M) → Half M S → Type 0
  StaysOpen V code [] h = Unit
  StaysOpen V code (a ∷ acts) h =
      V.IsOpen h.wire × StaysOpen V code acts (half_act C error N code a h)

  -- The first message on its way is received, if it fits and the connection is open.
  half_receive-Carries :
      IsRead C
      → (V : Delivers N O) (code : Code) (h : Half M S) (m : M) (ms : List M) → V.IsOpen h.wire
      → Fits C m
      → Carries C (O.pending h.wire) (m ∷ ms)
      → ((half_receive C error N code h).seen ≡ h.seen ++ (m ∷ []))
        × Carries C (O.pending (half_receive C error N code h).wire) ms
  unfolding half_receive
  half_receive-Carries L V code h m ms is_open fits c =
      elim (receive-pending C error N O L code h.wire (m ∷ ms) c) [
        | inl (n, rest, whole, got, later) ↦
            let first : n ≡ m = cc in
            let same : rest ≡ ms = cc in
            (
              ap (seen_then h.seen) got ∙ ap (λ x. h.seen ++ (x ∷ [])) first,
              subst (Carries C (O.pending (half_receive C error N code h).wire)) same later,
            )
        | inr (idle, kept, later) ↦
            let (f, fs, some_frame, raw) = Carries-first C (O.pending h.wire) m ms c in
            absurd
              (cc (sym idle ∙ V.read_arrived h.wire f fs is_open some_frame (fits f.content raw)))
      ]

  seen_then-grows : (ms : List M) (g : Got E M) → (more : List M) × (seen_then ms g ≡ ms ++ more)
  seen_then-grows ms (message m) = (m ∷ [], refl)
  seen_then-grows ms (lost e) = ([], sym (append-nil ms))
  seen_then-grows ms nothing_yet = ([], sym (append-nil ms))

  half_receive-grows :
      (code : Code) (h : Half M S)
      → (more : List M) × ((half_receive C error N code h).seen ≡ h.seen ++ more)
  unfolding half_receive
  half_receive-grows code h = seen_then-grows h.seen (receive C error N code h.wire).0

  module _ (L : IsRead C) (V : Delivers N O) (code : Code) where
    -- What was received stays received.
    half_run-grows :
        (acts : List (HalfAction M)) (h : Half M S)
        → (more : List M) × ((half_run C error N code acts h).seen ≡ h.seen ++ more)
    unfolding half_send
    half_run-grows [] h = ([], sym (append-nil h.seen))
    half_run-grows (put m ∷ acts) h = half_run-grows acts (half_send C error N m h)
    half_run-grows (get ∷ acts) h =
        let (now, e) = half_receive-grows code h in
        let (later, rest) = half_run-grows acts (half_receive C error N code h) in
        (now ++ later, rest ∙ ap (λ xs. xs ++ later) e ∙ append_assoc h.seen now later)

    -- The messages in front are received after as many reads, whatever is sent meanwhile.
    half_run-delivers :
        (acts : List (HalfAction M)) (h : Half M S) (front back : List M)
        → All (Fits C) front
        → StaysOpen V code acts h
        → Carries C (O.pending h.wire) (front ++ back)
        → length front ≤ gets acts
        → (more : List M) × ((half_run C error N code acts h).seen ≡ (h.seen ++ front) ++ more)
    unfolding half_send
    half_run-delivers acts h [] back fits up c n =
        let (more, e) = half_run-grows acts h in
        (more, e ∙ ap (λ (xs : List M). xs ++ more) (sym (append-nil h.seen)))
    half_run-delivers [] h (m ∷ front) back fits up c n = absurd (omega arith)
    half_run-delivers (put k ∷ acts) h (m ∷ front) back fits (now, up) c n =
        elim (half_send-Carries k h (m ∷ (front ++ back)) c) [
          | inl same ↦
              half_run-delivers acts (half_send C error N k h) (m ∷ front) back fits up same n
          | inr longer ↦
              half_run-delivers acts (half_send C error N k h) (m ∷ front) (back ++ (k ∷ [])) fits
                up
                (subst (Carries C (O.pending (half_send C error N k h).wire))
                  (append_assoc (m ∷ front) back (k ∷ [])) longer)
                n
        ]
    half_run-delivers (get ∷ acts) h (m ∷ front) back (fit, fits) (now, up) c n =
        let (got, later) = half_receive-Carries L V code h m (front ++ back) now fit c in
        let (more, e) =
          half_run-delivers acts (half_receive C error N code h) front back fits up later
            (omega arith) in
        (
          more,
          e ∙ ap (λ (xs : List M). (xs ++ front) ++ more) got ∙ regroup_next h.seen front more m,
        )

    -- Whatever was sent before is received after as many reads as there were frames on their way.
    half_run-InOrder-delivers :
        (acts : List (HalfAction M)) (h : Half M S)
        → InOrder C error N O h
        → All (Fits C) h.sent
        → StaysOpen V code acts h
        → length (O.pending h.wire) ≤ gets acts
        → (more : List M) × ((half_run C error N code acts h).seen ≡ h.sent ++ more)
    unfolding InOrder
    half_run-InOrder-delivers acts h (ms, order, c) fits up n =
        let (more, e) =
          half_run-delivers acts h ms []
            (All-behind (Fits C) h.seen ms (subst (All (Fits C)) order fits)) up
            (subst (Carries C (O.pending h.wire)) (sym (append-nil ms)) c)
            (omega (arith, length-Carries C (O.pending h.wire) ms c)) in
        (more, e ∙ ap (λ (xs : List M). xs ++ more) (sym order))

module _ {Q A E U D : Type 0} (CQ : Codec Q) (CA : Codec A) (error : Code → E) (NU : Wire E U)
    (ND : Wire E D) (OU : IsOrdered NU) (OD : IsOrdered ND) where
  InOrder-new_half :
      {M S : Type 0} (C : Codec M) (N : Wire E S) (O : IsOrdered N) (s : S)
      → O.pending s ≡ []
      → InOrder C error N O (new_half s)
  unfolding InOrder
  InOrder-new_half C N O s h = ([], refl, subst (λ fs. Carries C fs []) (sym h) tt)

  run-InOrder :
      IsRead CQ
      → IsRead CA
      → (acts : List (Action Q A)) (u : U) (d : D) → OU.pending u ≡ []
      → OD.pending d ≡ []
      → InOrder CQ error NU OU (run CQ CA error NU ND acts (new_call u d)).up
        × InOrder CA error ND OD (run CQ CA error NU ND acts (new_call u d)).down
  run-InOrder LQ LA acts u d hu hd = (
    subst (InOrder CQ error NU OU) (sym (run-up CQ CA error NU ND acts (new_call u d))) (
        half_run-InOrder CQ error NU code_invalid_argument OU LQ (requests acts) (new_half u)
          (InOrder-new_half CQ NU OU u hu)),
    subst (InOrder CA error ND OD) (sym (run-down CQ CA error NU ND acts (new_call u d))) (
        half_run-InOrder CA error ND code_internal OD LA (answers acts) (new_half d)
          (InOrder-new_half CA ND OD d hd)),
  )

  -- A bidirectional call over a WebSocket, whose two ends send and receive in any order, over a
  -- connection that keeps the order of its frames and may fail: at any time, what the server has
  -- received is the beginning of what the client has sent, and the reverse.
  pub run-seen :
      IsRead CQ
      → IsRead CA
      → (acts : List (Action Q A)) (u : U) (d : D) → OU.pending u ≡ []
      → OD.pending d ≡ []
      → ((ms : List Q) × ((call_after CQ CA error NU ND acts u d).up.sent
            ≡ (call_after CQ CA error NU ND acts u d).up.seen ++ ms))
        × ((ms : List A) × ((call_after CQ CA error NU ND acts u d).down.sent
              ≡ (call_after CQ CA error NU ND acts u d).down.seen ++ ms))
  unfolding InOrder
  run-seen LQ LA acts u d hu hd =
      let (up, down) = run-InOrder LQ LA acts u d hu hd in ((up.0, up.1), (down.0, down.1))

  -- A message that was sent arrives. After any steps of the two ends, in which each message sent
  -- encodes within the documented read limit of 32768 bytes, and then any others, in front of each
  -- of which the connection is open, and in which the server receives as often as there were
  -- requests on their way, and the client as often as there were answers, each has received all
  -- that the other had sent in the first of these steps, in that order, whatever both sent in the
  -- meantime. The connection keeps the order of its frames, and while it is open a frame within the
  -- limit arrives at the next read; the codecs read what they write.
  pub run-arrives :
      IsRead CQ
      → IsRead CA
      → (VU : Delivers NU OU) (VD : Delivers ND OD) (before after : List (Action Q A)) (u : U)
        (d : D)
      → OU.pending u ≡ []
      → OD.pending d ≡ []
      → All (Fits CQ) (call_after CQ CA error NU ND before u d).up.sent
      → All (Fits CA) (call_after CQ CA error NU ND before u d).down.sent
      → StaysOpen CQ error NU OU VU code_invalid_argument
          (requests after)
          (call_after CQ CA error NU ND before u d).up
      → StaysOpen CA error ND OD VD code_internal
          (answers after)
          (call_after CQ CA error NU ND before u d).down
      → length (OU.pending (call_after CQ CA error NU ND before u d).up.wire)
        ≤ gets (requests after)
      → length (OD.pending (call_after CQ CA error NU ND before u d).down.wire)
        ≤ gets (answers after)
      → ((more : List Q) × ((run CQ CA error NU ND after
              (call_after CQ CA error NU ND before u d)).up.seen
            ≡ (call_after CQ CA error NU ND before u d).up.sent ++ more))
        × ((more : List A) × ((run CQ CA error NU ND after
                (call_after CQ CA error NU ND before u d)).down.seen
              ≡ (call_after CQ CA error NU ND before u d).down.sent ++ more))
  run-arrives LQ LA VU VD before after u d hu hd fits_up fits_down open_up open_down nu nd =
      let c = call_after CQ CA error NU ND before u d in
      let (up, down) = run-InOrder LQ LA before u d hu hd in
      (
        subst (λ (h : Half Q U). (more : List Q) × (h.seen ≡ c.up.sent ++ more))
            (sym (run-up CQ CA error NU ND after c))
            (half_run-InOrder-delivers CQ error NU OU LQ VU code_invalid_argument (requests after)
              c.up up fits_up open_up nu),
        subst (λ (h : Half A D). (more : List A) × (h.seen ≡ c.down.sent ++ more))
            (sym (run-down CQ CA error NU ND after c))
            (half_run-InOrder-delivers CA error ND OD LA VD code_internal (answers after) c.down
              down fits_down open_down nd),
      )
