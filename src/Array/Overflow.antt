-- ===== src/Array/Overflow.antt =====
-- core/array.c: array_set_elem far beyond the end of an array.
