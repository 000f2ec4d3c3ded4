-- ===== src/Auth.antt =====
-- auth/: authorization by policy, and the interceptors that guard a handler.
pub mod Rbac
pub mod Jwt
pub mod Interceptor
