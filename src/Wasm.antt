-- ===== src/Wasm.antt =====
-- src/wasm: the filter that compares two clusters behind a proxy.
pub mod ShadowFilter
