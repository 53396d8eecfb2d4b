-- ===== src/Tests/Segments.antt =====
-- The descriptor table in memory that held something else.
