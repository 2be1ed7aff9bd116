-- ===== src/Uio/Quiet.antt =====
-- Register access, the clock and the interrupt wait leave the socket alone.
use open_jls_demos.Prelude.{
  ℕ, zero, suc, ◌-◌, ◌/◌, ◌<◌, ◌≡◌, refl, Bool, true, arith, pos, negsuc, ◌∷◌,
}
use open_jls_demos.World.{
  Env, Dev, Trace, PollResult, poll_ready, poll_timeout, poll_eintr, poll_error, polled, reg_read,
  slept, interrupts,
}
use open_jls_demos.World.Returns.{Returns, Returns-map}
use open_jls_demos.World.Laws.{Lawful}
use open_jls_demos.World.Silent.{
  Silent, Quiet, Quiet-event, Quiet-trans, Silent-event, Silent-emit, Silent-bind, Silent-pure,
  Silent-if,
}
use open_jls_demos.World.Polls.{Ends}
use open_jls_demos.Uio.{
  uio_rd, uio_wr, now_us, now_ms, msleep_short, uio_irq_enable, irq_take, sys_irq_count, on_poll,
  poll_again, poll_loop, uio_irq_wait,
}

module _ {env : Env} {k : ℕ} (law : Lawful env k) where
  pub uio_rd-Silent : (d : Dev) (off : ℕ) → Silent env (uio_rd env d off)
  unfolding uio_rd
  uio_rd-Silent d off = Silent-event law.clock _ _ (λ t u. (refl, refl))

  pub uio_wr-Silent : (d : Dev) (off v : ℕ) → Silent env (uio_wr d off v)
  unfolding uio_wr
  uio_wr-Silent d off v = Silent-emit law.clock _ (λ u. (refl, refl))

  -- A read is the last event, with the value that it gave.
  pub uio_rd-Ends :
      (d : Dev) (off : ℕ) → Ends env (λ t v t'. t' ≡ reg_read d (off / 4) v ∷ t) (uio_rd env d off)
  unfolding uio_rd
  uio_rd-Ends d off = record { ends = λ t. (Quiet-event law.clock t _ (λ u. (refl, refl)), refl) }

  pub now_us-Silent : Silent env (now_us env)
  unfolding now_us
  now_us-Silent = Silent-event law.clock _ _ (λ t u. (refl, refl))

  pub now_ms-Silent : Silent env (now_ms env)
  unfolding now_ms
  now_ms-Silent = Silent-event law.clock _ _ (λ t u. (refl, refl))

  pub msleep_short-Silent : Silent env msleep_short
  unfolding msleep_short
  msleep_short-Silent = Silent-emit law.clock slept (λ u. (refl, refl))

  uio_irq_enable-Silent : (b : Bool) → Silent env (uio_irq_enable env b)
  unfolding uio_irq_enable
  uio_irq_enable-Silent b = Silent-event law.clock _ _ (λ t u. (refl, refl))

  irq_take-Silent : Silent env (irq_take env)
  unfolding irq_take
  irq_take-Silent =
      Silent-bind {m = sys_irq_count env} (Silent-event law.clock _ _ (λ t u. (refl, refl))) λ b.
        Silent-if b (Silent-bind (uio_irq_enable-Silent true) (λ _. Silent-pure (pos 1)))
          (Silent-pure (negsuc 0))

  on_poll-Silent : (r : PollResult) → Silent env (on_poll env r)
  unfolding on_poll
  on_poll-Silent poll_ready = irq_take-Silent
  on_poll-Silent poll_timeout = Silent-pure (pos 0)
  on_poll-Silent poll_eintr = Silent-pure (negsuc 0)
  on_poll-Silent poll_error = Silent-pure (negsuc 0)

  poll_loop-Quiet :
      (fuel : ℕ) (t : Trace)
      → k - interrupts t < fuel
      → Returns (poll_loop fuel env t) (λ _ t'. Quiet env t t')
  unfolding poll_loop
  poll_loop-Quiet zero t f = absurd (omega arith)
  poll_loop-Quiet (suc fuel) t f = step (poll_loop-Quiet fuel) (env.poll t) refl
    where
      next : (r : PollResult) → Quiet env t (polled r ∷ t)
      next poll_eintr = Quiet-event law.clock t _ (λ u. (refl, refl))
      next r = Quiet-event law.clock t _ (λ u. (refl, refl))

      step :
          ((u : Trace)
            → k - interrupts u < fuel
            → Returns (poll_loop fuel env u) (λ _ t'. Quiet env u t'))
          → (r : PollResult) → env.poll t ≡ r
          → Returns (poll_again (poll_loop fuel env) r (polled r ∷ t)) (λ _ t'. Quiet env t t')
      step ih poll_eintr e =
          Returns-map (poll_loop fuel env (polled poll_eintr ∷ t))
            (λ _ v. Quiet env (polled poll_eintr ∷ t) v) (λ _ v. Quiet env t v)
            (ih (polled poll_eintr ∷ t) (omega (arith, law.signals.of_poll t e)))
            (λ _ v q. Quiet-trans (next poll_eintr) q)
      step ih poll_ready e = next poll_ready
      step ih poll_timeout e = next poll_timeout
      step ih poll_error e = next poll_error

  -- Fuel above the number of interrupted calls is enough for the wait.
  pub uio_irq_wait-Silent : (fuel : ℕ) → k < fuel → Silent env (uio_irq_wait fuel env)
  unfolding uio_irq_wait
  uio_irq_wait-Silent fuel f =
      Silent-bind (record { ends = λ t. poll_loop-Quiet fuel t (omega arith) }) on_poll-Silent
