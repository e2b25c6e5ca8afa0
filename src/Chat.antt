-- ===== src/Chat.antt =====
-- Programming_Assignment_2: the server and the client of the chat protocol SBCP.
pub mod Sockets
pub mod Message
pub mod Room
pub mod Join
pub mod Broadcast
pub mod Server
pub mod Main
pub mod Client
mod Tests
mod Starts
