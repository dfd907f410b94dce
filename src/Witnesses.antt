-- ===== src/Witnesses.antt =====
-- The theorems at concrete states, with the data that they run on.
mod Domain
mod Sidecar
mod SystemProxy
mod Routing
mod Schedule
mod Compiler
mod Storage
mod Selection
mod Provider
