-- ===== src/AxiDma/Open.antt =====
-- Software/src/axidma.c: `axidma_open` and `axidma_close`.
pub mod Holds
use open_jls_demos.Prelude.{ℕ, Bool, false, List, Option, none, some, if◌then◌else◌, ℤ, is_zero}
use open_jls_demos.World.{Env, M, pure, ◌>>=◌, ◌>>◌}
use open_jls_demos.Uio.{uio_irq_enable}
use open_jls_demos.Uio.Open.{Uio, uio_open, uio_close}
use open_jls_demos.AxiDma.{axidma_reset}

-- `struct axidma` is its UIO device, whose `irq_ok` stands beside it.
abbrev pub Axidma : Type 0
Axidma = Uio × Bool

unfoldable pub on_reset : Env → Uio → ℤ → M (Option Axidma)
on_reset env uio rc =
    if is_zero rc
    then (uio_irq_enable env false >>= λ r. pure (some (uio, r.1)))
    else (uio_close uio >> pure none)

unfoldable pub on_uio : ℕ → Env → Option Uio → M (Option Axidma)
on_uio fuel env none = pure none
on_uio fuel env (some uio) = axidma_reset fuel env >>= on_reset env uio

-- The engine after its reset, or `none` for -1, when nothing is left open.
unfoldable pub axidma_open : ℕ → Env → List ℕ → M (Option Axidma)
axidma_open fuel env name_or_path = uio_open env name_or_path >>= on_uio fuel env

unfoldable pub axidma_close : Axidma → M (Unit {0})
axidma_close (uio, irq_ok) = uio_close uio
