-- ===== src/Tftp.antt =====
-- Programming_Assignment_3: the TFTP server.
pub mod Wire
pub mod Socket
pub mod Netascii
pub mod Exchange
pub mod Request
pub mod Download
pub mod Upload
pub mod Handle
pub mod Server
pub mod Main
mod Tests
mod Starts
