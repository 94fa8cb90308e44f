-- ===== src/Vmm/Paging/Tests.antt =====
-- An allocation down to the frames.
