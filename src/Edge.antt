-- ===== src/Edge.antt =====
-- src/middlewares: what stands before and after the handlers.
pub mod Proxy
pub mod Platform
pub mod Errors
