-- ===== src/Processor.antt =====
-- The processor service: processor/internal.
pub mod Retry
pub mod Router
pub mod Http
pub mod Client
pub mod Limit
pub mod Pipeline
pub mod Consumer
pub mod Workers
