-- ===== src/Tests.antt =====
-- Runs of the modelled functions on concrete inputs, and the theorems of the library at inputs that
-- meet their hypotheses.
mod Chats
mod Programs
mod Clients
mod Closings
mod Data
mod Wire
mod Receiving
mod Pools
mod Networks
mod Sending
mod Shared
