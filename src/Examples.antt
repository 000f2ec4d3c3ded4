-- ===== src/Examples.antt =====
-- The theorems of the library at concrete inputs.
mod Routes
mod Muxes
mod Auths
mod Calls
mod Values
mod Statuses
mod Streams
mod Handlers
mod Clients
mod Sockets
mod Requests
mod Schedules
mod Tokens
