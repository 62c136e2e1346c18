-- ===== src/Tests.antt =====
-- Runs of the code on small inputs, and the theorems at concrete inputs.
mod Data
mod Memory
mod Packets
mod Messages
mod Control
mod Streams
mod Credits
mod Chains
mod Polls
mod Apps
mod Attach
mod Slaves
mod Sessions
mod Callbacks
