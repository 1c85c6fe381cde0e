-- ===== src/Tests.antt =====
-- Runs of the model on concrete inputs.
mod Disk
mod Matching
mod Protocol
mod Durability
mod Packets
mod Pool
mod Sums
mod Ingress
mod Network
mod Connections
mod Benchmarks
mod Numbers
