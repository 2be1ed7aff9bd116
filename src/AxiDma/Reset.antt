-- ===== src/AxiDma/Reset.antt =====
-- The reset of the DMA engine ends.
use open_jls_demos.Prelude.{
  ℕ, zero, suc, ◌+◌, ◌*◌, ◌/◌, ◌%◌, ◌<◌, ◌≡◌, ◌∙◌, refl, ap, ◌⊎◌, inl, inr, false, ltb, ltb_iff,
  test_bit, if◌then◌else◌, ℤ, pos, negsuc, ◌∷◌, arith,
}
use open_jls_demos.World.{Env, Trace, M, pure, ◌>>=◌, ◌>>◌, dma, reg_read, clock_read}
use open_jls_demos.World.Returns.{Returns}
use open_jls_demos.World.Laws.{Lawful}
use open_jls_demos.World.Silent.{Quiet}
use open_jls_demos.World.Polls.{
  Ends, Polls, At, At-pure, At-if, At-bind, At-then, At-clock, Ends-deadline,
}
use open_jls_demos.Uio.{uio_wr, now_ms, msleep_short}
use open_jls_demos.Uio.Quiet.{uio_rd-Ends, uio_wr-Silent, msleep_short-Silent}
use open_jls_demos.AxiDma.{dma_cr, cr_reset, mm2s, s2mm, reset_loop, axidma_reset}

-- The clock in milliseconds.
abbrev pub ms_of : ℕ → ℕ
ms_of ns = ns / 1_000_000_000 * 1000 + ns % 1_000_000_000 / 1_000_000

-- How the loop ends: 0 after both channels were read with the reset bit clear, or -1 after the
-- clock was read past the deadline.
abbrev pub ResetEnd : ℕ → ℤ → Trace → Type 0
ResetEnd deadline rc t =
    ((a : ℕ) × (b : ℕ) × (u : Trace) × (rc ≡ pos 0)
      × (t ≡ reg_read dma (dma_cr s2mm / 4) b ∷ reg_read dma (dma_cr mm2s / 4) a ∷ u)
      × (test_bit a 2 ≡ false)
      × (test_bit b 2 ≡ false))
    ⊎ ((ns : ℕ) × (u : Trace) × (rc ≡ negsuc 0) × (t ≡ clock_read ns ∷ u) × (deadline < ms_of ns))

module _ {env : Env} {k : ℕ} (law : Lawful env k) (deadline : ℕ) where
  abbrev limit : ℕ
  limit = (deadline + 1) * 1_000_000

  reset_late :
      (fuel : ℕ) (again : M ℤ) (t : Trace)
      → Polls env limit fuel (ResetEnd deadline) again
      → At env limit
          (suc fuel)
          (ResetEnd deadline)
          (now_ms env >>= λ now.
            if ltb deadline now then pure (negsuc 0) else (msleep_short >> again))
          t
  unfolding now_ms
  reset_late fuel again t p =
      At-clock law.clock limit fuel (ResetEnd deadline) ms_of (ltb deadline) (pure (negsuc 0))
        (msleep_short >> again) t (λ ns h. ground arith)
        (λ ns u h. At-pure (inr (ns, u, refl, refl, (ltb_iff _ _).0 h)))
        (record { at = λ u. At-then (msleep_short-Silent law) (λ _ v. p.at v) })

  reset_loop-Polls :
      (fuel : ℕ) → Polls env limit fuel (ResetEnd deadline) (reset_loop fuel env deadline)
  unfolding reset_loop
  reset_loop-Polls zero = record { at = λ t. record { ends = λ h. absurd (omega arith) } }
  reset_loop-Polls (suc fuel) = record {
    at = λ t. At-bind (uio_rd-Ends law dma (dma_cr mm2s)) (λ a u p.
        At-if (test_bit a 2)
          (λ _. reset_late fuel (reset_loop fuel env deadline) u (reset_loop-Polls fuel))
          (λ x. At-bind (uio_rd-Ends law dma (dma_cr s2mm)) (λ b v q.
            At-if (test_bit b 2)
              (λ _. reset_late fuel (reset_loop fuel env deadline) v (reset_loop-Polls fuel))
              (λ y.
                At-pure (
                  inl (a, b, t, refl, q ∙ ap (◌∷◌ (reg_read dma (dma_cr s2mm / 4) b)) p, x, y))))));
  }

pub axidma_reset-Ends :
    {env : Env} {k : ℕ} (fuel : ℕ)
    → Lawful env k
    → 102_000_000 < fuel
    → Ends env (λ t. ResetEnd (ms_of (env.clock t) + 100)) (axidma_reset fuel env)
unfolding axidma_reset now_ms
axidma_reset-Ends {env} fuel law f =
    Ends-deadline law.clock fuel 102_000_000 f ms_of (λ now. (now + 100 + 1) * 1_000_000)
      (λ now. ResetEnd (now + 100))
      (λ now.
        uio_wr dma (dma_cr mm2s) cr_reset
        >> (uio_wr dma (dma_cr s2mm) cr_reset >> reset_loop fuel env (now + 100)))
      (λ ns. omega arith)
      (λ now. record {
        at = λ t. At-then (uio_wr-Silent law dma (dma_cr mm2s) cr_reset) (λ _ u.
            At-then (uio_wr-Silent law dma (dma_cr s2mm) cr_reset)
              (λ _ v. (reset_loop-Polls law (now + 100) fuel).at v));
      })

-- With fuel above the nanoseconds of the time limit, `axidma_reset` returns 0 or -1 whatever the
-- engine does, and leaves the socket alone. It returns 0 only after it has read both control
-- registers with the reset bit clear, and -1 only after the clock was read more than 100 ms later.
pub axidma_reset_total :
    {env : Env} {k : ℕ} (fuel : ℕ) (t : Trace)
    → Lawful env k
    → 102_000_000 < fuel
    → Returns
        (axidma_reset fuel env t)
        (λ rc t'. Quiet env t t' × ResetEnd (ms_of (env.clock t) + 100) rc t')
axidma_reset_total fuel t law f = (axidma_reset-Ends fuel law f).ends t
