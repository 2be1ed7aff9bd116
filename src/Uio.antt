-- ===== src/Uio.antt =====
-- Software/src/uio.c, uio.h and ojls_regs.h: register access, interrupts and the clock.
pub mod Quiet
pub mod Open
pub mod Keeps
use open_jls_demos.Prelude.{
  ℕ, zero, suc, ◌+◌, ◌*◌, ◌/◌, ◌%◌, ◌^◌, Bool, true, ◌∷◌, none, some, if◌then◌else◌, ℤ, pos, negsuc,
}
use open_jls_demos.World.{
  Dev, PollResult, poll_ready, poll_timeout, poll_eintr, poll_error, reg_read, reg_write,
  clock_read, slept, polled, irq_counted, irq_enabled, Env, M, pure, emit, ◌>>=◌,
}

-- `u->regs[off / 4]`
unfoldable pub uio_rd : Env → Dev → ℕ → M ℕ
uio_rd env d off t = let v = env.reg t d (off / 4) in some (v, reg_read d (off / 4) v ∷ t)

unfoldable pub uio_wr : Dev → ℕ → ℕ → M (Unit {0})
uio_wr d off v = emit (reg_write d (off / 4) v)

-- The flag is `irq_ok`, which a success sets.
unfoldable pub uio_irq_enable : Env → Bool → M (ℤ × Bool)
uio_irq_enable env irq_ok t =
    let b = env.irq_enable t in
    some (if b then (pos 0, true) else (negsuc 0, irq_ok), irq_enabled b ∷ t)

poll_again : M PollResult → PollResult → M PollResult
poll_again again poll_ready = pure poll_ready
poll_again again poll_timeout = pure poll_timeout
poll_again again poll_eintr = again
poll_again again poll_error = pure poll_error

sys_poll : Env → M PollResult
sys_poll env t = let r = env.poll t in some (r, polled r ∷ t)

poll_loop : ℕ → Env → M PollResult
unfolding sys_poll poll_again
poll_loop zero env = λ t. none
poll_loop (suc fuel) env = sys_poll env >>= poll_again (poll_loop fuel env)

sys_irq_count : Env → M Bool
sys_irq_count env t = let b = env.irq_count t in some (b, irq_counted b ∷ t)

-- The counter is read from the device; a short read is an error.
irq_take : Env → M ℤ
unfolding sys_irq_count uio_irq_enable
irq_take env = do
  b ← sys_irq_count env
  if b then (uio_irq_enable env true >>= λ _. pure (pos 1)) else pure (negsuc 0)

on_poll : Env → PollResult → M ℤ
unfolding irq_take
on_poll env poll_ready = irq_take env
on_poll env poll_timeout = pure (pos 0)
on_poll env poll_eintr = pure (negsuc 0)
on_poll env poll_error = pure (negsuc 0)

unfoldable pub uio_irq_wait : ℕ → Env → M ℤ
unfolding poll_loop on_poll
uio_irq_wait fuel env = poll_loop fuel env >>= on_poll env

-- CLOCK_MONOTONIC as `tv_sec` and `tv_nsec`.
unfoldable pub now_us : Env → M ℕ
now_us env t =
    let ns = env.clock t in
    some (ns / 1_000_000_000 * 1_000_000 + ns % 1_000_000_000 / 1000, clock_read ns ∷ t)

unfoldable pub now_ms : Env → M ℕ
now_ms env t =
    let ns = env.clock t in
    some (ns / 1_000_000_000 * 1000 + ns % 1_000_000_000 / 1_000_000, clock_read ns ∷ t)

-- 100 us
unfoldable pub msleep_short : M (Unit {0})
msleep_short = emit slept

abbrev pub reg_id : ℕ
reg_id = 0x00

abbrev pub reg_version : ℕ
reg_version = 0x04

abbrev pub reg_caps : ℕ
reg_caps = 0x08

abbrev pub reg_maxdim : ℕ
reg_maxdim = 0x0C

abbrev pub reg_width : ℕ
reg_width = 0x10

abbrev pub reg_height : ℕ
reg_height = 0x14

abbrev pub reg_ctrl : ℕ
reg_ctrl = 0x18

abbrev pub reg_status : ℕ
reg_status = 0x1C

abbrev pub id_value : ℕ
id_value = 0x4F4A4C53

abbrev pub ctrl_apply : ℕ
ctrl_apply = 1

abbrev pub caps_bitness : ℕ → ℕ
caps_bitness caps = caps % 2 ^ 8

abbrev pub caps_out_bytes : ℕ → ℕ
caps_out_bytes caps = caps / 2 ^ 8 % 2 ^ 8

abbrev pub maxdim_width : ℕ → ℕ
maxdim_width maxdim = maxdim % 2 ^ 16

abbrev pub maxdim_height : ℕ → ℕ
maxdim_height maxdim = maxdim / 2 ^ 16 % 2 ^ 16

abbrev pub min_width : ℕ
min_width = 4

abbrev pub min_height : ℕ
min_height = 1
