-- ===== src/Transport/WebSocket/Laws.antt =====
-- transport/websocket/websocket.go and client/websocket.go: the messages of a bidirectional call,
-- whose two ends act in any order.
use zara_rpc.Common.{
  Text, ◌⊎◌, ◌≡◌, refl, sym, ap, ◌∙◌, false, Option, none, some, List, [], ◌∷◌, ◌++◌, append_assoc,
  Bool-cases, inl, inr, Option-cases, if◌then◌else◌, subst,
}
use zara_rpc.Codes.{Code, code_internal}
use zara_rpc.Transport.Framing.{Codec}
use zara_rpc.Transport.WebSocket.{
  receive, Frame, Reading, arrived, broken, waiting, is_frame, Wire, IsOrdered, Got, message, lost,
  nothing_yet, send, open_frame, open_reading,
}

-- The documented behaviour of a codec.
abbrev pub IsRead : {M : Type 0} → Codec M → Type 0
IsRead {M} C = (m : M) (raw : Text) → C.marshal m ≡ some raw → C.unmarshal raw ≡ some m

-- One direction of a call, with the messages whose `Send` succeeded and those received.
pub record Half (M S : Type 0) : Type 0 where
  pub wire : S
  pub sent : List M
  pub seen : List M

abbrev pub sent_then : {E M : Type 0} → List M → M → Option E → List M
sent_then ms m none = ms ++ (m ∷ [])
sent_then ms m (some e) = ms

abbrev pub seen_then : {E M : Type 0} → List M → Got E M → List M
seen_then ms (message m) = ms ++ (m ∷ [])
seen_then ms (lost e) = ms
seen_then ms nothing_yet = ms

-- The messages that frames carry.
abbrev pub Carries : {M : Type 0} → Codec M → List Frame → List M → Type 0
Carries C [] [] = Unit
Carries C [] (m ∷ ms) = ⊥
Carries C (f ∷ fs) [] = ⊥
Carries C (f ∷ fs) (m ∷ ms) =
    ((C.marshal m ≡ some f.content) × (f.typ ≡ (if C.is_binary then 2 else 1))) × Carries C fs ms

pub Carries-append :
    {M : Type 0} (C : Codec M) (fs : List Frame) (ms : List M) (f : Frame) (m : M)
    → Carries C fs ms
    → C.marshal m ≡ some f.content
    → f.typ ≡ (if C.is_binary then 2 else 1)
    → Carries C (fs ++ (f ∷ [])) (ms ++ (m ∷ []))
Carries-append C [] [] f m c h t = ((h, t), tt)
Carries-append C [] (n ∷ ms) f m c h t = elim c [ ]
Carries-append C (g ∷ fs) [] f m c h t = elim c [ ]
Carries-append C (g ∷ fs) (n ∷ ms) f m (here, there) h t =
    (here, Carries-append C fs ms f m there h t)

module _ {M E S : Type 0} (C : Codec M) (error : Code → E) (N : Wire E S) where
  unfoldable pub half_send : M → Half M S → Half M S
  unfolding send
  half_send m h = record {
    wire = (send C error N m h.wire).1;
    sent = sent_then h.sent m (send C error N m h.wire).0;
    seen = h.seen;
  }

  unfoldable pub half_receive : Code → Half M S → Half M S
  unfolding receive
  half_receive code h = record {
    wire = (receive C error N code h.wire).1;
    sent = h.sent;
    seen = seen_then h.seen (receive C error N code h.wire).0;
  }

  -- What was sent is what was seen and what is on its way.
  unfoldable pub InOrder : IsOrdered N → Half M S → Type 0
  InOrder O h = (ms : List M) × (h.sent ≡ h.seen ++ ms) × Carries C (O.pending h.wire) ms

  open_frame-Carries :
      (code : Code) (f : Frame) (m : M)
      → C.unmarshal f.content ≡ some m
      → f.typ ≡ (if C.is_binary then 2 else 1)
      → open_frame C error N code f ≡ message m
  unfolding open_frame
  open_frame-Carries code f m u t = elim (Bool-cases C.is_binary) [
    | inl binary ↦ rw (open_frame, t, binary, u) refl
    | inr plain ↦ rw (open_frame, t, plain, u) refl
  ]

  module _ (O : IsOrdered N) where
    pub send-pending :
        (m : M) (s : S)
        → ((e : E) × ((send C error N m s).0 ≡ some e)
            × (O.pending (send C error N m s).1 ≡ O.pending s))
          ⊎ ((f : Frame) × ((send C error N m s).0 ≡ none)
              × (O.pending (send C error N m s).1 ≡ O.pending s ++ (f ∷ []))
              × (C.marshal m ≡ some f.content)
              × (f.typ ≡ (if C.is_binary then 2 else 1)))
    unfolding send
    send-pending m s = elim (Option-cases (C.marshal m)) [
      | inl fails ↦ inl (error code_internal, rw (send, fails) refl, rw (send, fails) refl)
      | inr (content, h) ↦
          let f : Frame = record { typ = if C.is_binary then 2 else 1; content = content } in
          elim (Option-cases (N.write f s).0) [
            | inl written ↦
                inr (f, rw (send, h) written, rw (send, h) (O.write_pending f s written), h, refl)
            | inr (e, refused) ↦
                inl (e, rw (send, h) refused, rw (send, h) (O.refuse_pending f s e refused))
          ]
    ]

    pub half_send-InOrder : (m : M) (h : Half M S) → InOrder O h → InOrder O (half_send m h)
    unfolding half_send InOrder
    half_send-InOrder m h (ms, order, c) = elim (send-pending m h.wire) [
      | inl (e, failed, same) ↦
          (ms, ap (sent_then h.sent m) failed ∙ order, subst (λ fs. Carries C fs ms) (sym same) c)
      | inr (f, done, longer, raw, t) ↦ (
        ms ++ (m ∷ []),
        ap (sent_then h.sent m) done
            ∙ ap (λ ns. ns ++ (m ∷ [])) order
            ∙ append_assoc h.seen ms (m ∷ []),
        subst (λ fs. Carries C fs (ms ++ (m ∷ []))) (sym longer)
            (Carries-append C (O.pending h.wire) ms f m c raw t),
      )
    ]

    receive-idle :
        (code : Code) (ms : List M) (r : Reading E)
        → is_frame r ≡ false
        → seen_then ms (open_reading C error N code r) ≡ ms
    receive-idle code ms (arrived f) h = absurd cc
    receive-idle code ms (broken e) h = refl
    receive-idle code ms waiting h = refl

    -- The first frame on its way is the first message that was not seen.
    first_message :
        (f : Frame) (fs : List Frame) (ms : List M)
        → Carries C (f ∷ fs) ms
        → (m : M) × (rest : List M) × (ms ≡ m ∷ rest)
          × (C.marshal m ≡ some f.content)
          × (f.typ ≡ (if C.is_binary then 2 else 1))
          × Carries C fs rest
    first_message f fs [] c = elim c [ ]
    first_message f fs (m ∷ ms) ((h, t), c) = (m, ms, refl, h, t, c)

    pub receive-pending :
        (L : IsRead C) (code : Code) (s : S) (ms : List M)
        → Carries C (O.pending s) ms
        → ((m : M) × (rest : List M) × (ms ≡ m ∷ rest)
            × ((receive C error N code s).0 ≡ message m)
            × Carries C (O.pending (receive C error N code s).1) rest)
          ⊎ ((is_frame (N.read s).0 ≡ false)
              × ((seen : List M) → seen_then seen (receive C error N code s).0 ≡ seen)
              × Carries C (O.pending (receive C error N code s).1) ms)
    unfolding receive
    receive-pending L code s ms c = elim (O.read_pending s) [
      | inl (f, reads, first) ↦
          let (m, rest, whole, raw, t, later) =
            first_message f (O.pending (N.read s).1) ms (subst (λ fs. Carries C fs ms) first c) in
          inl (
            m,
            rest,
            whole,
            ap (open_reading C error N code) reads
                ∙ open_frame-Carries code f m (L m f.content raw) t,
            later,
          )
      | inr (idle, same) ↦ inr (
        idle,
        λ (seen : List M). receive-idle code seen (N.read s).0 idle,
        subst (λ fs. Carries C fs ms) (sym same) c,
      )
    ]

    pub half_receive-InOrder :
        IsRead C → (code : Code) (h : Half M S) → InOrder O h → InOrder O (half_receive code h)
    unfolding half_receive InOrder
    half_receive-InOrder L code h (ms, order, c) = elim (receive-pending L code h.wire ms c) [
      | inl (m, rest, whole, got, later) ↦ (
        rest,
        order
            ∙ ap (λ ns. h.seen ++ ns) whole
            ∙ sym (append_assoc h.seen (m ∷ []) rest)
            ∙ ap (λ g. seen_then h.seen g ++ rest) (sym got),
        later,
      )
      | inr (idle, kept, later) ↦ (ms, order ∙ ap (λ ns. ns ++ ms) (sym (kept h.seen)), later)
    ]
