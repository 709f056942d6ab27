-- ===== src/Server.antt =====
-- pkg/server/server.go: the tables of a server, registration, and the dispatch of requests. Handlers
-- are the application's functions: they read and change a world of their own.
pub mod Tables
pub mod Dispatch
pub mod Registration
pub mod Replies
pub mod Panics
pub mod Serve
pub mod Http
pub mod Interface
