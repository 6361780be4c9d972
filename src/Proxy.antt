-- ===== src/Proxy.antt =====
-- server_phase5.cpp: the request path of the proxy, from the bytes that a client sends to the bytes
-- that it is sent.
pub mod State
pub mod Send
pub mod Fetch
pub mod Serve
pub mod Handle
pub mod EventLoop
pub mod Sample
