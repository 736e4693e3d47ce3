-- ===== src/Devices/Dbv300.antt =====
-- The driver of the JCM bill validator: devices/dbv300sd. Its adapter, its configuration and the
-- serial transport; the protocol behind the adapter is an interface, for which the source has
-- placeholders only.
pub mod Adapter
pub mod Commands
pub mod Config
pub mod Deferred
pub mod Link
pub mod Refusals
pub mod Requests
pub mod Serial
pub mod Shutdown
pub mod Startup
pub mod Runs
pub mod Polling
