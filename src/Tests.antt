-- ===== src/Tests.antt =====
-- Runs of the modelled code on small inputs, and the theorems at concrete arguments.
mod Heap
mod Memory
mod Timers
mod Bytes
mod Queues
mod Histories
mod Rounds
mod Starts
mod Drivers
mod Accidents
mod Orders
mod Interleavings
mod System
