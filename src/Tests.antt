-- ===== src/Tests.antt =====
-- A machine to run the agent on, and the theorems at inputs on it.
mod Machine
mod Agent
mod Daemon
mod Sessions
mod Web
mod Windows
mod Client
mod Com
mod Fanotify
mod Exchange
