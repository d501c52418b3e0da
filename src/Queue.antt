-- ===== src/Queue.antt =====
-- gateway/src/queue.c and gateway/include/queue.h: the task queue between the network thread and the
-- workers, and the response queue on the way back.
pub mod Fifo
pub mod Task
pub mod Response
