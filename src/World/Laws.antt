-- ===== src/World/Laws.antt =====
-- What the programs rely on of the system: documented behaviour of the calls and of the hardware.
use open_jls_demos.Prelude.{ℕ, ◌+◌, ◌*◌, ◌^◌, ◌<◌, IsU8, IsU32}
use open_jls_demos.World.{Buf, Env, Trace, ReadLaw, WriteLaw, SignalBound, ClockAdvances}

-- `k` bounds the calls that signals interrupt in the run.
pub record Lawful (env : Env) (k : ℕ) : Type 0 where
  pub reads : ReadLaw env
  pub writes : WriteLaw env
  pub signals : SignalBound env k
  pub clock : ClockAdvances env
  pub words : (t : Trace) (o : ℕ) → IsU32 (env.status t o)
  pub memory : (t : Trace) (b : Buf) (o : ℕ) → IsU8 (env.byte t b o)

-- Fuel for every loop of a call with that timeout: a round takes a nanosecond at least, and a
-- transfer is shorter than 4 GiB.
abbrev pub Enough : ℕ → ℕ → ℕ → Type 0
Enough k timeout_ms fuel = (timeout_ms + 1000) * 1_000_000 + k + 2 ^ 33 < fuel
