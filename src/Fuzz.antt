-- ===== src/Fuzz.antt =====
-- src/fuzz: mutated request bodies, and how an endpoint answers them.
pub mod Paths
pub mod Edit
pub mod Mutator
pub mod Engine
