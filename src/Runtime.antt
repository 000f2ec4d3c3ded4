-- ===== src/Runtime.antt =====
-- runtime/: the paths of requests, the fields of messages, and contexts.
pub mod Substitute
pub mod Convert
pub mod ConvertLaws
pub mod Populate
pub mod Query
pub mod FieldCache
pub mod Ctx
pub mod Requests
