-- ===== src/Uio/Keeps.antt =====
-- Registers, interrupts and clocks make plain events.
use open_jls_demos.Prelude.{ℕ, zero, suc, ◌≡◌, refl, Bool, true, ◌/◌, pos, negsuc}
use open_jls_demos.World.{
  Dev, Env, Trace, PollResult, poll_ready, poll_timeout, poll_eintr, poll_error, reg_write, slept,
}
use open_jls_demos.World.Keeps.{
  Keeps, IsCalm, is_plain, Keeps-pure, Keeps-stuck, Keeps-bind, Keeps-if, Keeps-plain, Keeps-emit,
}
use open_jls_demos.Uio.{
  uio_rd, uio_wr, uio_irq_enable, sys_poll, poll_again, poll_loop, sys_irq_count, irq_take, on_poll,
  uio_irq_wait, now_us, now_ms, msleep_short,
}

module _ {R : Trace → Trace → Type 0} (calm : IsCalm R) (env : Env) where
  pub uio_rd-Keeps : (d : Dev) (off : ℕ) → Keeps R (uio_rd env d off)
  unfolding uio_rd
  uio_rd-Keeps d off = Keeps-plain calm _ _ (λ t. refl)

  pub uio_wr-Keeps :
      (d : Dev) (off v : ℕ) → is_plain (reg_write d (off / 4) v) ≡ true → Keeps R (uio_wr d off v)
  unfolding uio_wr
  uio_wr-Keeps d off v h = Keeps-emit calm (reg_write d (off / 4) v) h

  pub irq_enable-Keeps : (irq_ok : Bool) → Keeps R (uio_irq_enable env irq_ok)
  unfolding uio_irq_enable
  irq_enable-Keeps irq_ok = Keeps-plain calm _ _ (λ t. refl)

  pub now_us-Keeps : Keeps R (now_us env)
  unfolding now_us
  now_us-Keeps = Keeps-plain calm _ _ (λ t. refl)

  pub now_ms-Keeps : Keeps R (now_ms env)
  unfolding now_ms
  now_ms-Keeps = Keeps-plain calm _ _ (λ t. refl)

  pub msleep_short-Keeps : Keeps R msleep_short
  unfolding msleep_short
  msleep_short-Keeps = Keeps-emit calm slept refl

  poll_loop-Keeps : (fuel : ℕ) → Keeps R (poll_loop fuel env)
  unfolding poll_loop
  poll_loop-Keeps zero = Keeps-stuck calm.pre
  poll_loop-Keeps (suc fuel) = Keeps-bind calm.pre polling (go (poll_loop-Keeps fuel))
    where
      polling : Keeps R (sys_poll env)
      polling = Keeps-plain calm _ _ (λ t. refl)

      go :
          Keeps R (poll_loop fuel env)
          → (r : PollResult) → Keeps R (poll_again (poll_loop fuel env) r)
      go h poll_ready = Keeps-pure calm.pre _
      go h poll_timeout = Keeps-pure calm.pre _
      go h poll_eintr = h
      go h poll_error = Keeps-pure calm.pre _

  irq_take-Keeps : Keeps R (irq_take env)
  unfolding irq_take
  irq_take-Keeps =
      Keeps-bind calm.pre {m = sys_irq_count env} (Keeps-plain calm _ _ (λ t. refl)) (λ b.
        Keeps-if b (Keeps-bind calm.pre (irq_enable-Keeps true) (λ _. Keeps-pure calm.pre (pos 1)))
          (Keeps-pure calm.pre (negsuc 0)))

  on_poll-Keeps : (r : PollResult) → Keeps R (on_poll env r)
  unfolding on_poll
  on_poll-Keeps poll_ready = irq_take-Keeps
  on_poll-Keeps poll_timeout = Keeps-pure calm.pre _
  on_poll-Keeps poll_eintr = Keeps-pure calm.pre _
  on_poll-Keeps poll_error = Keeps-pure calm.pre _

  pub irq_wait-Keeps : (fuel : ℕ) → Keeps R (uio_irq_wait fuel env)
  unfolding uio_irq_wait
  irq_wait-Keeps fuel = Keeps-bind calm.pre (poll_loop-Keeps fuel) on_poll-Keeps
