-- ===== src/Kernel.antt =====
-- kernel/: the operations, and the handler that serves one of them over HTTP.
pub mod Errors
pub mod ErrorsLaws
pub mod Respond
pub mod Operation
pub mod Build
pub mod Serve
pub mod ServeLaws
pub mod Negotiate
pub mod FirstFrame
