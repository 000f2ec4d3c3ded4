-- ===== src/Client.antt =====
-- client/: the retry policy, the configuration and the errors of a unary call.
pub mod Retry
pub mod Errors
pub mod Calls
pub mod Request
pub mod Streams
