-- ===== src/Openapi.antt =====
-- src/openapi: schemas from recorded bodies, and bodies checked against a specification.
pub mod Infer
pub mod Generate
pub mod Verify
