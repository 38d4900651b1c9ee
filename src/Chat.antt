-- ===== src/Chat.antt =====
-- tests/single_server/single_server.cpp and tests/single_client/single_client.cpp: a chat whose server
-- sends every message on to all its clients, from inside the handler for messages. Signals, printing
-- and the loops that wait are not modelled.
pub mod Objects
pub mod Server
pub mod Client
pub mod Typing
pub mod Greeting
pub mod Sending
pub mod Relaying
pub mod Broadcast
pub mod Malformed
pub mod Reading
pub mod Talk
