-- ===== src/AxiDma/Open/Holds.antt =====
-- What the open engine holds.
use open_jls_demos.Prelude.{ℕ, ◌<◌, List, [], Option, none, some, ℤ, is_zero, arith}
use open_jls_demos.World.{Env, Trace, pure}
use open_jls_demos.World.Returns.{Returns, Returns-bind, Returns-map, Returns-if}
use open_jls_demos.World.Laws.{Lawful}
use open_jls_demos.World.Handles.{Handle, Balance}
use open_jls_demos.World.Tidy.{SameHandles-IsCalm, Gains, Tidy, Tidy-of}
use open_jls_demos.Uio.{uio_irq_enable}
use open_jls_demos.Uio.Open.{Uio, uio_open, uio_close}
use open_jls_demos.Uio.Open.Holds.{uio_handles, of_option, uio_open-Gains, uio_close-Loses}
use open_jls_demos.AxiDma.{axidma_reset}
use open_jls_demos.AxiDma.Reset.{axidma_reset_total}
use open_jls_demos.AxiDma.Keeps.{reset-Keeps}
use open_jls_demos.AxiDma.Open.{Axidma, on_reset, on_uio, axidma_open, axidma_close}

abbrev pub axidma_handles : Axidma → List Handle
axidma_handles (uio, irq_ok) = uio_handles uio

module _ {env : Env} {k : ℕ} (law : Lawful env k) (fuel : ℕ) (enough : 102_000_000 < fuel) where
  reset-Tidy : Tidy (axidma_reset fuel env)
  reset-Tidy =
      Tidy-of (λ _ _ _. Unit {0})
        (λ t.
          Returns-map (axidma_reset fuel env t) _ (λ _ _. Unit {0})
            (axidma_reset_total fuel t law enough) (λ _ _ _. tt))
        (reset-Keeps SameHandles-IsCalm env fuel)

  -- After the reset of a device that was opened in the run from `s` to `t`.
  on_reset-Gains :
      (uio : Uio) (rc : ℤ) (s t : Trace)
      → Balance (uio_handles uio) [] s t
      → Returns (on_reset env uio rc t) (λ x u. Balance (of_option axidma_handles x) [] s u)
  unfolding on_reset uio_irq_enable
  on_reset-Gains uio rc s t b =
      Returns-if (is_zero rc) _ _ t (λ x u. Balance (of_option axidma_handles x) [] s u)
        (λ _. record { holds = λ g. omega (arith, b.holds g) })
        (λ _.
          Returns-bind (uio_close uio) (λ _. pure none) t (λ _ v. Balance [] (uio_handles uio) t v)
            (λ x u. Balance (of_option axidma_handles x) [] s u) (uio_close-Loses uio t)
            (λ _ v c. record { holds = λ g. omega (arith, b.holds g, c.holds g) }))

  pub axidma_open-Gains :
      (name_or_path : List ℕ) → Gains (of_option axidma_handles) (axidma_open fuel env name_or_path)
  unfolding axidma_open on_uio
  axidma_open-Gains name_or_path = record {
    ends = λ t.
        Returns-bind (uio_open env name_or_path) (on_uio fuel env) t
          (λ x u. Balance (of_option uio_handles x) [] t u)
          (λ x u. Balance (of_option axidma_handles x) [] t u)
          ((uio_open-Gains env name_or_path).ends t) (go t);
  }
    where
      go :
          (t : Trace) (x : Option Uio) (u : Trace)
          → Balance (of_option uio_handles x) [] t u
          → Returns (on_uio fuel env x u) (λ y v. Balance (of_option axidma_handles y) [] t v)
      go t none u b = b
      go t (some uio) u b =
          Returns-bind (axidma_reset fuel env) (on_reset env uio) u (λ _ v. Balance [] [] u v)
            (λ y v. Balance (of_option axidma_handles y) [] t v) (reset-Tidy.ends u)
            (λ rc v c.
              on_reset-Gains uio rc t v
                (record { holds = λ g. omega (arith, b.holds g, c.holds g) }))

pub axidma_close-Loses :
    (d : Axidma) (t : Trace) → Returns (axidma_close d t) (λ _ v. Balance [] (axidma_handles d) t v)
unfolding axidma_close
axidma_close-Loses (uio, irq_ok) t = uio_close-Loses uio t
