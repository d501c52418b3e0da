-- ===== src/Tests.antt =====
-- The theorems at concrete inputs.
mod Queues
mod Packets
mod Clients
mod Reading
mod Serving
mod Daemons
mod Controls
mod Supervisors
