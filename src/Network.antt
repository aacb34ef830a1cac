-- ===== src/Network.antt =====
-- simulator/network: links, and the queues that share them.
pub mod Serialization
pub mod Link
pub mod Ingress
