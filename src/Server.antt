-- ===== src/Server.antt =====
-- gateway/src/server.c: the network thread's state and its handlers, with ENABLE_TLS. The heaps of
-- tasks, responses and waiting messages are part of the state. What the kernel, OpenSSL, `malloc`
-- and the clock answer is handed to each handler; `none` is a fault or the end of the fuel.
mod Defs
pub mod Read
pub mod Respond
pub mod Connections
pub mod Events
pub use Defs.*
