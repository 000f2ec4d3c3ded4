-- ===== src/Transport/Ndjson.antt =====
-- transport/ndjson/ndjson.go and client/ndjson.go: a client's stream of requests, one in a line.
use zara_rpc.Common.{
  ℕ, Bool, true, Option, none, some, List, [], ◌∷◌, ◌++◌, Text, trim_space, cut_line, if◌then◌else◌,
  ◌==◌, not,
}
use zara_rpc.Common.Result.{Result, ok, err}
use zara_rpc.Codes.{Code, code_invalid_argument, code_internal}
use zara_rpc.Transport.Framing.{Codec, Received, end_of_stream, encode, decode}

module _ {M : Type 0} (C : Codec M) where
  abbrev pub receive_line : Text → Received M
  receive_line [] = end_of_stream
  receive_line (c ∷ line) = decode C code_invalid_argument (c ∷ line)

  -- `Receive` of the server, on the input that is left; and what is left then. An input without a
  -- newline gives io.EOF, with or without a blank line.
  unfoldable pub receive : Text → Received M × Text
  receive input = elim (cut_line input) [
    | none ↦ (end_of_stream, [])
    | some (line, rest) ↦ (receive_line (trim_space line), rest)
  ]

-- `ndjsonResult`: an error of type `F`, or a response with its status code and body.
pub data NdjsonResult (F : Type 0) : Type 0 where
  broken : F → NdjsonResult F
  answered : ℕ → Text → NdjsonResult F

-- `ndjsonWriteStream`: what waits in `respCh`, `result`, what was written to `w`, and whether
-- `body` is closed.
pub record WriteStream (F : Type 0) : Type 0 where
  pub channel : Option (NdjsonResult F)
  pub result : Option (NdjsonResult F)
  pub written : Text
  pub closed : Bool

module _ {F : Type 0} where
  -- `takeResult`
  unfoldable pub take_result : WriteStream F → WriteStream F
  take_result s = elim s.result [
    | some r ↦ s
    | none ↦ elim s.channel [ none ↦ s | some r ↦ record s { channel = none; result = some r } ]
  ]

module _ {M F : Type 0} (C : Codec M) (error : Code → F) (from_http : ℕ → Text → F) where
  -- `Send`
  unfoldable pub send : WriteStream F → M → Result F (Unit {0}) × WriteStream F
  unfolding take_result encode
  send s m =
      let s' = take_result s in
      elim s'.result [
        | some (broken e) ↦ (err e, s')
        | some (answered code body) ↦ (err (from_http code body), s')
        | none ↦ elim (encode C m) [
          | none ↦ (err (error code_internal), s')
          | some b ↦ (ok tt, record s' { written = s'.written ++ (b ++ (b'\n' ∷ [])) })
        ]
      ]

  -- The stream after a `Send` of each message.
  unfoldable pub send_all : WriteStream F → List M → WriteStream F
  unfolding send
  send_all s [] = s
  send_all s (m ∷ ms) = send_all (send s m).1 ms

  -- `CloseAndReceive`, whose decoder is given; `none` while no result has arrived.
  unfoldable pub close_and_receive :
      {R : Type 0} → (Text → Option R) → WriteStream F → Option (Result F R) × WriteStream F
  unfolding take_result
  close_and_receive decoder s =
      let s' = take_result (record s { closed = true }) in
      elim s'.result [
        | none ↦ (none, s')
        | some (broken e) ↦ (some (err e), s')
        | some (answered code body) ↦
            if not (code == 200)
            then (some (err (from_http code body)), s')
            else elim (decoder body) [
              | none ↦ (some (err (error code_internal)), s')
              | some r ↦ (some (ok r), s')
            ]
      ]
