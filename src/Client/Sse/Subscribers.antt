-- ===== src/Client/Sse/Subscribers.antt =====
-- A client of pkg/client connected to an HTTPServer of pkg/server.
