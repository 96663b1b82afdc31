-- ===== src/Projection/Completing.antt =====
-- What a call of `complete` that returns has done.
