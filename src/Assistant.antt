-- ===== src/Assistant.antt =====
-- modules/ai: the assistant that answers with the help of tools.
pub mod Sanitizer
pub mod Sanitized
pub mod Policy
pub mod Orchestrator
pub mod Calls
pub mod Safety
