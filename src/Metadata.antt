-- ===== src/Metadata.antt =====
-- metadata/metadata.go: the deadline headers of gRPC.
pub mod Decimal
pub mod Timeout
pub mod TimeoutLaws
pub mod Pairs
pub mod Deadline
