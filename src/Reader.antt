-- ===== src/Reader.antt =====
-- internal/reader: the parallel prefetch reader and its chunk source.
pub mod Source
pub mod Buffer
pub mod Plan
