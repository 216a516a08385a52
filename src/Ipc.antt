-- ===== src/Ipc.antt =====
-- src/libzygisk/src/ipc_client.cpp: the connection to zygiskd, and its circuit breaker. Logging is
-- left out. A function takes the world before the call and gives its result and the world after.
pub mod Bytes
pub mod Connect
pub mod Request
pub mod Client
