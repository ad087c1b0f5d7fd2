-- ===== src/Mem/Status.antt =====
-- `mem_status_t` of include/base/mem.h, without its ERROR, which nothing sets.
pub data MemStatus : Type 0 where
  ready in_flight : MemStatus
