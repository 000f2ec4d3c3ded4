-- ===== src/Transport.antt =====
-- transport/ and client/: messages in the text framings of NDJSON and SSE. The codec and base64 are
-- parameters.
pub mod Framing
pub mod Ndjson
pub mod NdjsonLaws
pub mod Sse
pub mod SseLaws
pub mod SseRoundTrip
pub mod WebSocket
