-- ===== src/WebServer.antt =====
-- http_server/session.cpp and http_server/listener.cpp: the server on Boost.Beast. A completion of an
-- asynchronous call carries its error code and what was read.
pub mod Session
pub mod Listener
pub mod Exchange
