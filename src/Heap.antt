-- ===== src/Heap.antt =====
-- The C heap of one type of linked node: `struct task` (gateway/include/queue.h), `struct response`
-- (the same) and `struct data_transmit` (gateway/include/client.h) each have one. A pointer is a
-- number and 0 is NULL; `none` is a fault: a read or a write through NULL or through a pointer that
-- holds no node (freed, or never allocated).
mod Defs
mod Chain
mod Append
unfoldable pub use Defs.*
pub use Chain.*
unfoldable pub use Append.*
