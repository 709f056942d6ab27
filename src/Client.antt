-- ===== src/Client.antt =====
-- pkg/client: the client's configuration, reading a result out of a response, and the operations
-- of the interface Client.
pub mod Config
pub mod Results
pub mod Operations
pub mod Exchange
pub mod Remote
pub mod Sse
pub mod Transport
pub mod Opening
