-- ===== src/Routing.antt =====
-- routing/: path templates, the radix tree of wildcard routes, and the Mux that dispatches.
pub mod Pattern
pub mod Tree
pub mod Mux
