-- ===== src/Tests/Elements.antt =====
-- An array of instructions at a concrete input.
