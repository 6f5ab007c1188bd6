-- ===== src/Proxy.antt =====
-- src-tauri/src/proxy: the capturing proxy.
pub mod Capture
