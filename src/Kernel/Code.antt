-- ===== src/Kernel/Code.antt =====
-- The return codes of tn.h.
pub data Code : Type 0 where
  no_err : Code
  overflow : Code
  wcontext : Code
  timeout : Code
  wrong_param : Code
  underflow : Code
  out_of_mem : Code
  noexs : Code
  wstate : Code
  iluse : Code
  dlt : Code
