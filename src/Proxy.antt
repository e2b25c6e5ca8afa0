-- ===== src/Proxy.antt =====
-- Programming_Assignment_4: the HTTP proxy: its requests, its cache and its loop; and its client.
pub mod Times
pub mod Stamp
pub mod Cache
pub mod Request
pub mod Texts
pub mod Session
pub mod Server
pub mod Main
pub mod Client
pub mod Visits
mod Tests
mod Starts
mod Runs
mod Browses
mod Turns
