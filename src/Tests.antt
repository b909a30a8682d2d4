-- ===== src/Tests.antt =====
-- Concrete instances of the third-party crates, and the theorems at concrete inputs.
mod Rfc8949
mod Toy
mod Recipients
mod Messages
mod Exchange
mod Replay
mod Transfers
mod Unwraps
mod Keys
mod Pairings
mod Transports
mod Bech32
mod Records
mod Devices
