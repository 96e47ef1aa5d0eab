-- ===== src/Ipc.antt =====
-- client/src/main/index.ts: the handlers of the main process that the renderer calls, and its
-- handlers of events of the application.
pub mod Signing
pub mod Panics
pub mod Status
pub mod Controllers
pub mod Examples
