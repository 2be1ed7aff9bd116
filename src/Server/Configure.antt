-- ===== src/Server/Configure.antt =====
-- Software/src/ojls_server.c: how `hw_configure` ends.
use open_jls_demos.Prelude.{
  ℕ, zero, suc, inl, inr, ◌+◌, ◌*◌, ◌≤◌, ◌<◌, ◌≡◌, ◌≢◌, ◌⊎◌, refl, false, ltb, ltb_iff, test_bit,
  ◌!=◌, ◌∷◌, ℤ, pos, negsuc, arith,
}
use open_jls_demos.World.{Env, Trace, pure, regs, reg_read, reg_write, clock_read}
use open_jls_demos.World.Returns.{Returns, Returns-map, Returns-if}
use open_jls_demos.World.Laws.{Lawful}
use open_jls_demos.World.Polls.{Polls, At-pure, At-if, At-bind, At-clock}
use open_jls_demos.Uio.{uio_rd, uio_wr, now_us, reg_status}
use open_jls_demos.Uio.Quiet.{uio_rd-Ends}
use open_jls_demos.Server.{busy_loop, configure_from, hw_configure}
use open_jls_demos.Server.Quiet.{us_of}

-- How the wait for the core ends: 0 after STATUS was read without BUSY, or -1 after the clock was
-- read past the deadline.
abbrev pub BusyEnd : ℕ → ℤ → Trace → Type 0
BusyEnd deadline rc t =
    ((st : ℕ) × (u : Trace) × (rc ≡ pos 0) × (t ≡ reg_read regs 7 st ∷ u) × (test_bit st 0 ≡ false))
    ⊎ ((ns : ℕ) × (u : Trace) × (rc ≡ negsuc 0) × (t ≡ clock_read ns ∷ u) × (deadline < us_of ns))

-- The dimensions are written, and WIDTH is read back, then HEIGHT.
abbrev pub dims_written : Env → ℕ → ℕ → Trace → Trace
dims_written env width height t =
    reg_write regs 5 height ∷ reg_write regs 4 width ∷ clock_read (env.clock t) ∷ t

abbrev pub width_read : Env → ℕ → ℕ → Trace → Trace
width_read env width height t =
    let u = dims_written env width height t in reg_read regs 4 (env.reg u regs 4) ∷ u

abbrev pub height_read : Env → ℕ → ℕ → Trace → Trace
height_read env width height t =
    let u = width_read env width height t in reg_read regs 5 (env.reg u regs 5) ∷ u

-- Refused dimensions end the call before APPLY; otherwise the wait decides.
abbrev pub ConfigEnd : Env → ℕ → ℕ → Trace → ℤ → Trace → Type 0
ConfigEnd env width height t rc t' =
    ((env.reg (dims_written env width height t) regs 4 ≡ width)
      × (env.reg (width_read env width height t) regs 5 ≡ height)
      × BusyEnd (us_of (env.clock t) + 100_000) rc t')
    ⊎ (((rc ≡ negsuc 0)
          × (env.reg (dims_written env width height t) regs 4 ≢ width)
          × (t' ≡ width_read env width height t))
        ⊎ ((rc ≡ negsuc 0)
            × (env.reg (width_read env width height t) regs 5 ≢ height)
            × (t' ≡ height_read env width height t)))

module _ {env : Env} {k : ℕ} (law : Lawful env k) where
  busy_loop-BusyEnd :
      (deadline fuel : ℕ)
      → Polls env ((deadline + 1) * 1000) fuel (BusyEnd deadline) (busy_loop fuel env deadline)
  unfolding busy_loop now_us
  busy_loop-BusyEnd deadline zero = record { at = λ t. record { ends = λ h. absurd (omega arith) } }
  busy_loop-BusyEnd deadline (suc fuel) = record {
    at = λ t. At-bind (uio_rd-Ends law regs reg_status) (λ st u p.
        At-if (test_bit st 0)
          (λ _.
            At-clock law.clock ((deadline + 1) * 1000) fuel (BusyEnd deadline) us_of (ltb deadline)
              (pure (negsuc 0)) (busy_loop fuel env deadline) u (λ ns h. ground arith)
              (λ ns v h. At-pure (inr (ns, v, refl, refl, (ltb_iff _ _).0 h)))
              (busy_loop-BusyEnd deadline fuel))
          (λ clear. At-pure (inl (st, t, refl, p, clear))));
  }

-- With fuel above the nanoseconds of its time limit, `hw_configure` ends whatever the core does.
-- If WIDTH or HEIGHT, read back after both were written, is not what was written, it returns -1 at
-- once and never writes APPLY. Otherwise it returns 0 only just after STATUS was read without BUSY,
-- and -1 only when the clock was read more than 100 ms after the start.
pub hw_configure_total :
    {env : Env} {k : ℕ} (fuel width height : ℕ) (t : Trace)
    → Lawful env k
    → 102_000_000 < fuel
    → Returns (hw_configure fuel env width height t) (ConfigEnd env width height t)
unfolding hw_configure configure_from now_us uio_wr uio_rd
hw_configure_total {env} fuel width height t law f =
    let t₁ = dims_written env width height t in
    let t₂ = width_read env width height t in
    let t₃ = height_read env width height t in
    let t₄ : Trace = reg_write regs 6 1 ∷ t₃ in
    let a : Trace = clock_read (env.clock t) ∷ t in
    let b : Trace = reg_write regs 4 width ∷ a in
    let later : env.clock t ≤ env.clock t₄ = omega (
      arith,
      law.clock t (clock_read (env.clock t)),
      law.clock a (reg_write regs 4 width),
      law.clock b (reg_write regs 5 height),
      law.clock t₁ (reg_read regs 4 (env.reg t₁ regs 4)),
      law.clock t₂ (reg_read regs 5 (env.reg t₂ regs 5)),
      law.clock t₃ (reg_write regs 6 1),
    ) in
    Returns-if (env.reg t₁ regs 4 != width) _ _ t₂ (ConfigEnd env width height t)
      (λ bad. inr (inl (refl, ground arith, refl)))
      (λ same.
        Returns-if (env.reg t₂ regs 5 != height) _ _ t₃ (ConfigEnd env width height t)
          (λ bad. inr (inr (refl, ground arith, refl)))
          (λ too.
            Returns-map (busy_loop fuel env (us_of (env.clock t) + 100_000) t₄) _
              (ConfigEnd env width height t)
              (((busy_loop-BusyEnd law (us_of (env.clock t) + 100_000) fuel).at t₄).ends
                (omega (arith, later)))
              (λ rc v q. inl (ground arith, ground arith, q.1))))
