-- ===== src/Importer.antt =====
-- src/importer: endpoints from recorded requests.
pub mod Curl
