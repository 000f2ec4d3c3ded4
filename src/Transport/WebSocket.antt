-- ===== src/Transport/WebSocket.antt =====
-- transport/websocket/websocket.go and client/websocket.go: messages as the frames of a WebSocket.
-- A direction of the connection, which package coder/websocket carries, is a parameter: an
-- interface of operations and the laws that it documents.
pub mod Laws
pub mod Calls
pub mod Delivery
use zara_rpc.Common.{
  ◌⊎◌, ℕ, Bool, true, false, ◌||◌, Option, none, some, List, [], ◌∷◌, ◌++◌, Text, codes, has_prefix,
  drop, contains_byte, ◌==◌, ◌≡◌, if◌then◌else◌,
}
use zara_rpc.Common.Result.{Result, ok, err}
use zara_rpc.Codes.{Code, code_invalid_argument, code_internal}
use zara_rpc.Transport.Framing.{Codec}

-- A frame: its type, 1 for text and 2 for binary, and its data.
pub record Frame : Type 0 where
  pub typ : ℕ
  pub content : Text

-- What a read of the connection gives: a frame, an error, or nothing yet.
pub data Reading (E : Type 0) : Type 0 where
  arrived : Frame → Reading E
  broken : E → Reading E
  waiting : Reading E

-- One direction of a connection, with its state.
pub record Wire (E S : Type 0) : Type 0 where
  pub write : Frame → S → Option E × S
  pub read : S → Reading E × S

abbrev pub is_frame : {E : Type 0} → Reading E → Bool
is_frame (arrived f) = true
is_frame (broken e) = false
is_frame waiting = false

-- The documented order: a frame that is written comes behind those on their way, a write that fails
-- leaves them, and a read gives the first of them, or none and leaves them.
pub record IsOrdered {E S : Type 0} (N : Wire E S) : Type 0 where
  pub pending : S → List Frame
  pub write_pending :
      (f : Frame) (s : S) → (N.write f s).0 ≡ none → pending (N.write f s).1 ≡ pending s ++ (f ∷ [])
  pub refuse_pending :
      (f : Frame) (s : S) (e : E) → (N.write f s).0 ≡ some e → pending (N.write f s).1 ≡ pending s
  pub read_pending :
      (s : S)
      → ((f : Frame) × ((N.read s).0 ≡ arrived f) × (pending s ≡ f ∷ pending (N.read s).1))
        ⊎ ((is_frame (N.read s).0 ≡ false) × (pending (N.read s).1 ≡ pending s))

-- What a stream's `Receive` returns, or nothing yet.
pub data Got (E M : Type 0) : Type 0 where
  message : M → Got E M
  lost : E → Got E M
  nothing_yet : Got E M

module _ {M E S : Type 0} (C : Codec M) (error : Code → E) (N : Wire E S) where
  -- The type of the frames of a codec.
  abbrev pub frame_type : ℕ
  frame_type = if C.is_binary then 2 else 1

  -- `Send` of `ServerStream`, of `BidiStream` and of `wsClientStream`.
  unfoldable pub send : M → S → Option E × S
  send m s = elim (C.marshal m) [
    | none ↦ (some (error code_internal), s)
    | some content ↦ N.write (record { typ = frame_type; content = content }) s
  ]

  -- A frame as a message: of the two types, and decoded, or the codes of the errors.
  unfoldable pub open_frame : Code → Frame → Got E M
  open_frame code f =
      if f.typ == 1 || f.typ == 2
      then elim (C.unmarshal f.content) [ none ↦ lost (error code) | some m ↦ message m ]
      else lost (error code_invalid_argument)

  abbrev pub open_reading : Code → Reading E → Got E M
  open_reading code (arrived f) = open_frame code f
  open_reading code (broken e) = lost e
  open_reading code waiting = nothing_yet

  unfoldable pub receive : Code → S → Got E M × S
  unfolding open_frame
  receive code s = let (r, s') = N.read s in (open_reading code r, s')

  -- `Receive` of `BidiStream` on the `wsAdapter`.
  unfoldable pub receive_server : S → Got E M × S
  unfolding receive
  receive_server s = receive code_invalid_argument s

  -- `Receive` of `wsClientStream` and of `wsServerStreamClient`.
  unfoldable pub receive_client : S → Got E M × S
  unfolding receive
  receive_client s = receive code_internal s

-- strings.Contains(u, "?") decides the separator; url.QueryEscape is a parameter.
abbrev pub with_encoding : (Text → Text) → Text → Text → Text
with_encoding query_escape codec_name u =
    u
    ++ ((if contains_byte u b'?' then codes "&" else codes "?")
        ++ (codes "encoding=" ++ query_escape codec_name))

-- `wsURL`
unfoldable pub ws_url : (Text → Text) → Text → Text → Text → Text
ws_url query_escape base path codec_name = with_encoding query_escape codec_name (
    if has_prefix base (codes "http://")
    then codes "ws://" ++ (drop 7 base ++ path)
    else if has_prefix base (codes "https://")
    then codes "wss://" ++ (drop 8 base ++ path)
    else base ++ path)
