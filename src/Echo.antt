-- ===== src/Echo.antt =====
-- Programming_Assignment_1: the TCP echo server and its client.
pub mod Io
pub mod Write
pub mod ReadLine
pub mod Server
pub mod Accept
pub mod Main
pub mod Client
pub mod Conversation
mod Tests
