-- ===== src/Importer.antt =====
-- internal/importer: the documents that the drivers file and the imports are made of.
pub mod Merge
pub mod Tests
