-- ===== src/Client.antt =====
-- bench/investigation/client.py: the trace runner, which measures one cache with one trace of keys.
pub mod Trace
pub mod Calls
pub mod Run
pub mod Verify
pub mod Batch
