-- ===== src/Source.antt =====
-- src/nyxstone.cpp: how the source text becomes statements.
pub mod BlockComments
pub mod LineComments
pub mod Statements
