-- ===== src/World/Desc.antt =====
-- Software/src/axidma.h: the Scatter/Gather descriptor, 64 bytes in memory.
use open_jls_demos.Prelude.{ℕ}

-- `app` and `pad` are written as zeros and never read, so they are not fields here.
pub record AxidmaDesc : Type 0 where
  pub nxtdesc : ℕ
  pub nxtdesc_msb : ℕ
  pub buffer_addr : ℕ
  pub buffer_msb : ℕ
  pub control : ℕ
  pub status : ℕ
