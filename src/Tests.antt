-- ===== src/Tests.antt =====
-- The theorems at concrete inputs, and runs of the model.
mod Sample
mod Remote
mod Dispatch
mod Registries
mod Configs
mod Adapters
mod Wire
mod Serving
mod Http
mod Transport
mod Exchanges
mod Calls
mod Interfaces
mod Runner
