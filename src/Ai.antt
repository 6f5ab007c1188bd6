-- ===== src/Ai.antt =====
-- src-tauri/src/ai: what is modelled of it is how JSON is found in the answer of a model, and how an
-- analysis is validated.
pub mod Json
pub mod Validation
