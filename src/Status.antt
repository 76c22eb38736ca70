-- ===== src/Status.antt =====
-- The `int` that the library's functions return: 0, or -1 for a failure.
pub data Status : Type 0 where
  ok failed : Status
