-- ===== src/Server/Quiet.antt =====
-- The hardware side of the server ends, and leaves the socket alone.
use open_jls_demos.Prelude.{
  ℕ, zero, suc, ◌+◌, ◌*◌, ◌/◌, ◌%◌, ◌<◌, ◌≡◌, refl, ap, [], ltb, test_bit, ◌!=◌, negsuc, All, IsU8,
  length, arith,
}
use open_jls_demos.World.{Env, Trace, Buf, pure, regs, gate}
use open_jls_demos.World.Laws.{Lawful}
use open_jls_demos.World.Silent.{Silent, Silent-pure, Silent-bind, Quiet-event}
use open_jls_demos.World.Polls.{
  Ends, Polls, At-pure, At-if, At-then, At-clock, Any, Ends-Silent, Ends-deadline,
}
use open_jls_demos.Uio.{now_us, reg_width, reg_height, reg_ctrl, reg_status, ctrl_apply}
use open_jls_demos.Uio.Quiet.{uio_rd-Silent, uio_wr-Silent}
use open_jls_demos.AxiDma.Reset.{axidma_reset-Ends}
use open_jls_demos.Server.{
  DmabufRegion, bytes_from, region_bytes, busy_loop, configure_from, hw_configure, gate_set,
  gate_thresh, hw_recover,
}

-- The clock in microseconds.
abbrev pub us_of : ℕ → ℕ
us_of ns = ns / 1_000_000_000 * 1_000_000 + ns % 1_000_000_000 / 1000

module _ {env : Env} {k : ℕ} (law : Lawful env k) where
  busy_loop-Polls :
      (deadline fuel : ℕ)
      → Polls env ((deadline + 1) * 1000) fuel (Any []) (busy_loop fuel env deadline)
  unfolding busy_loop now_us
  busy_loop-Polls deadline zero = record { at = λ t. record { ends = λ h. absurd (omega arith) } }
  busy_loop-Polls deadline (suc fuel) = record {
    at = λ t. At-then (uio_rd-Silent law regs reg_status) (λ st u.
        At-if (test_bit st 0)
          (λ _.
            At-clock law.clock ((deadline + 1) * 1000) fuel (Any []) us_of (ltb deadline)
              (pure (negsuc 0)) (busy_loop fuel env deadline) u (λ ns h. ground arith)
              (λ ns v h. At-pure tt) (busy_loop-Polls deadline fuel))
          (λ _. At-pure tt));
  }

  pub hw_configure-Silent :
      (fuel width height : ℕ) → 102_000_000 < fuel → Silent env (hw_configure fuel env width height)
  unfolding hw_configure configure_from now_us
  hw_configure-Silent fuel width height f =
      Ends-Silent (λ _. Any [])
        (Ends-deadline law.clock fuel 102_000_000 f us_of (λ now. (now + 100_000 + 1) * 1000)
          (λ _. Any []) (configure_from fuel env width height) (λ ns. omega arith)
          (λ now. record {
            at = λ t. At-then (uio_wr-Silent law regs reg_width width) (λ _ t₁.
                At-then (uio_wr-Silent law regs reg_height height) (λ _ t₂.
                  At-then (uio_rd-Silent law regs reg_width) (λ w t₃.
                    At-if (w != width) (λ _. At-pure tt)
                      (λ _. At-then (uio_rd-Silent law regs reg_height) (λ h t₄.
                        At-if (h != height) (λ _. At-pure tt)
                          (λ _.
                            At-then (uio_wr-Silent law regs reg_ctrl ctrl_apply)
                              (λ _ t₅. (busy_loop-Polls (now + 100_000) fuel).at t₅)))))));
          }))

  pub gate_set-Silent : (ready_pct : ℕ) → Silent env (gate_set env ready_pct)
  unfolding gate_set
  gate_set-Silent ready_pct =
      Silent-bind (uio_wr-Silent law gate 0x00 (gate_thresh ready_pct))
        (λ _. Silent-bind (uio_rd-Silent law gate 0x00) (λ v. Silent-pure _))

  pub hw_recover-Silent :
      (fuel width height : ℕ) → 102_000_000 < fuel → Silent env (hw_recover fuel env width height)
  unfolding hw_recover
  hw_recover-Silent fuel width height f =
      Silent-bind (Ends-Silent _ (axidma_reset-Ends fuel law f))
        (λ _. Silent-bind (hw_configure-Silent fuel width height f) (λ _. Silent-pure tt))

  bytes_from_lem :
      (t : Trace) (b : Buf) (n off : ℕ)
      → (length (bytes_from env t b n off) ≡ n) × All IsU8 (bytes_from env t b n off)
  unfolding bytes_from
  bytes_from_lem t b zero off = (refl, tt)
  bytes_from_lem t b (suc n) off =
      let (l, a) = bytes_from_lem t b n (off + 1) in (ap suc l, (law.memory t b off, a))

  -- Reading a region gives as many bytes as were asked for.
  pub region_bytes-Ends :
      (r : DmabufRegion) (off len : ℕ)
      → Ends env (λ _ bs _. length bs ≡ len) (region_bytes env r off len)
  unfolding region_bytes
  region_bytes-Ends r off len = record {
    ends = λ t. (
      Quiet-event law.clock t _ (λ u. (refl, refl)),
      (bytes_from_lem t r.b.buf len (r.off + off)).0,
    );
  }
