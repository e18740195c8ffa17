-- ===== src/Core/Label/Tests.antt =====
-- The label `work`.
