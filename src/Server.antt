-- ===== src/Server.antt =====
-- server: the HTTP server that gives out files and takes POST parameters.
pub mod Connections
pub mod Exchange
pub mod Handler
pub mod Message
pub mod Parameters
pub mod Parser
pub mod Reply
pub mod Url
