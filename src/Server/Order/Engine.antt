-- ===== src/Server/Order/Engine.antt =====
-- A request up to the start of the engine leaves the order of hand-overs intact.
use open_jls_demos.Prelude.{ℕ, zero, suc, ◌≡◌, Bool, Option, none, some, ℤ, pos, negsuc}
use open_jls_demos.World.{tx, rx, desc, Env, Trace, M, ◌>>=◌}
use open_jls_demos.World.Desc.{AxidmaDesc}
use open_jls_demos.World.Keeps.{Keeps}
use open_jls_demos.Uio.Keeps.{now_us-Keeps}
use open_jls_demos.Uio.{now_us}
use open_jls_demos.Udmabuf.{udmabuf_sync_for_device}
use open_jls_demos.AxiDma.{AxidmaRing, axidma_reset, axidma_sg_start, s2mm, mm2s}
use open_jls_demos.AxiDma.Ring.{axidma_ring_build}
use open_jls_demos.AxiDma.Keeps.{reset-Keeps}
use open_jls_demos.Server.{Hw, or_return, hw_configure, gate_set}
use open_jls_demos.Server.Keeps.Core.{configure-Keeps, gate_set-Keeps}
use open_jls_demos.Server.Keeps.Hardware.{build-Keeps}
use open_jls_demos.Server.Encode.{with_ring, built_or_return}
use open_jls_demos.Server.Order.{Coherent}
use open_jls_demos.Server.Order.Leads.{
  Leads, Stays, Leads-bind, Leads-pure, Keeps-Leads, Leads-Gives, or_return-Leads, PixelsStored,
  PixelsStored-IsCalm, PixelsFlushed, AllFlushed, PixelsFlushed-IsCalm, AllFlushed-IsCalm,
}
use open_jls_demos.Server.Order.Syncs.{sync_tx-Gives, sync_desc-Gives, start-AllFlushed}

-- The handle has each buffer in its place, as `hw_open` leaves it.
pub record IsWired (hw : Hw) : Type 0 where
  pub tx_is : hw.tx.b.buf ≡ tx
  pub rx_is : hw.rx.b.buf ≡ rx
  pub desc_is : hw.desc_buf.buf ≡ desc

-- A step that keeps a property, before a step from it.
pub Keeps-then :
    (size : ℕ) {P : Trace → Type 0} {m rest : M ℤ} (code : ℤ)
    → ((t : Trace) → P t → Coherent size t)
    → Keeps (Stays P) m
    → Leads P (Coherent size) rest
    → Leads P (Coherent size) (or_return m code rest)
Keeps-then size code h k l = or_return-Leads code (Leads-Gives h (Keeps-Leads (λ t p. p) k)) l

built-Leads :
    (size : ℕ) {P : Trace → Type 0} (k : AxidmaRing → M ℤ)
    → ((t : Trace) → P t → Coherent size t)
    → ((ring : AxidmaRing) → Leads P (Coherent size) (k ring))
    → (r : ℤ × Option AxidmaRing) → Leads P (Coherent size) (built_or_return r k)
unfolding built_or_return
built-Leads size k h l (pos zero, none) = Leads-pure _ h
built-Leads size k h l (pos zero, some ring) = l ring
built-Leads size k h l (pos (suc n), none) = Leads-pure _ h
built-Leads size k h l (pos (suc n), some ring) = Leads-pure _ h
built-Leads size k h l (negsuc n, none) = Leads-pure _ h
built-Leads size k h l (negsuc n, some ring) = Leads-pure _ h

module _ (env : Env) (fuel : ℕ) (hw : Hw) (wired : IsWired hw) where
  -- What is said of the descriptor buffer of the handle.
  abbrev size : ℕ
  size = hw.desc_buf.size

  -- The two starts, then what follows them.
  pub starts-Coherent :
      (out_ring in_ring : AxidmaRing) (code : ℤ) (rest : M ℤ)
      → Leads (Coherent size) (Coherent size) rest
      → Leads (AllFlushed size) (Coherent size) (
          now_us env >>= λ _.
          or_return
            (axidma_sg_start s2mm out_ring)
            code
            (or_return (axidma_sg_start mm2s in_ring) code rest))
  starts-Coherent out_ring in_ring code rest l =
      Leads-bind (Keeps-Leads (λ t p. p) (now_us-Keeps (AllFlushed-IsCalm size) env)) (λ _.
        Keeps-then size code (λ t p. p.0) (start-AllFlushed size s2mm out_ring)
          (or_return-Leads code
            (Leads-Gives (λ t c. c) (Keeps-Leads (λ t p. p.0) (start-AllFlushed size mm2s in_ring)))
            l))

  -- From the configuration of the core to the flush of the descriptors.
  pub prepared-Coherent :
      (width height ready_pct len cap₁ phys₁ len₁ chunk₁ off₂ cap₂ phys₂ len₂ chunk₂ : ℕ)
      (frame₁ frame₂ : Bool) (code : ℤ) (run : AxidmaRing → AxidmaRing → M ℤ)
      → ((out_ring in_ring : AxidmaRing)
          → Leads (AllFlushed size) (Coherent size) (run out_ring in_ring))
      → Leads (PixelsStored size hw.tx.off len) (Coherent size) (
          or_return (hw_configure fuel env width height) code (
            or_return (gate_set env ready_pct) code (
              or_return (udmabuf_sync_for_device env hw.tx.b.buf hw.tx.off len) code (
                or_return (axidma_reset fuel env) code (
                  with_ring
                    (axidma_ring_build hw.desc_buf 0 cap₁ phys₁ len₁ chunk₁ frame₁)
                    λ out_ring.
                      with_ring
                        (axidma_ring_build hw.desc_buf off₂ cap₂ phys₂ len₂ chunk₂ frame₂)
                        λ in_ring.
                          or_return
                            (udmabuf_sync_for_device env hw.desc_buf.buf 0 hw.desc_buf.size)
                            code
                            (run out_ring in_ring))))))
  prepared-Coherent width height ready_pct len cap₁ phys₁ len₁ chunk₁ off₂ cap₂ phys₂ len₂ chunk₂
        frame₁ frame₂ code run l =
      let calm = PixelsStored-IsCalm size hw.tx.off len in
      let pixels = PixelsFlushed-IsCalm size in
      let stores = λ (o : ℕ) (d : AxidmaDesc) (t : Trace) (p : PixelsFlushed size t). p in
      Keeps-then size code (λ t p. p.0) (configure-Keeps calm env fuel width height)
        (Keeps-then size code (λ t p. p.0) (gate_set-Keeps calm env ready_pct)
          (or_return-Leads code (sync_tx-Gives size env hw.tx.b.buf hw.tx.off len wired.tx_is) (
            Keeps-then size code (λ t p. p.0) (reset-Keeps pixels env fuel)
              (Leads-bind
                (Keeps-Leads (λ t p. p)
                  (build-Keeps pixels env stores hw.desc_buf 0 cap₁ phys₁ len₁ chunk₁ frame₁))
                (built-Leads size _ (λ t p. p.0)
                  (λ out_ring.
                    Leads-bind
                      (Keeps-Leads (λ t p. p)
                        (build-Keeps pixels env stores hw.desc_buf off₂ cap₂ phys₂ len₂ chunk₂
                          frame₂))
                      (built-Leads size _ (λ t p. p.0)
                        (λ in_ring.
                          or_return-Leads code
                            (sync_desc-Gives size env hw.desc_buf.buf wired.desc_is)
                            (l out_ring in_ring)))))))))
