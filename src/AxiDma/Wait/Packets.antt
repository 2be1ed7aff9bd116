-- ===== src/AxiDma/Wait/Packets.antt =====
-- The wait for a stream of packets ends by its deadline.
use open_jls_demos.Prelude.{
  ℕ, zero, suc, ◌+◌, ◌-◌, ◌*◌, ◌<◌, ◌≡◌, refl, ◌⊎◌, inl, inr, Bool, true, not, ◌&&◌, test_bit, ℤ,
  pos, negsuc, is_zero, [], ◌∷◌, arith,
}
use open_jls_demos.World.{Env, Trace, dma, status_read}
use open_jls_demos.World.Returns.{Returns}
use open_jls_demos.World.Laws.{Lawful}
use open_jls_demos.World.Silent.{Silent, Quiet}
use open_jls_demos.World.Polls.{
  Ends, Polls, At, At-pure, At-if, At-bind, At-then, Any, Polls-Ends, Ends-Silent, Ends-deadline,
}
use open_jls_demos.Uio.{now_ms}
use open_jls_demos.Uio.Quiet.{uio_rd-Silent}
use open_jls_demos.Udmabuf.Sync.{sync_for_cpu-Silent}
use open_jls_demos.AxiDma.{
  dma_sr, s2mm, sr_any_err, eof_bit, cmplt_bit, desc_err, desc_size, AxidmaRing,
}
use open_jls_demos.AxiDma.Reset.{ms_of}
use open_jls_demos.AxiDma.Wait.{
  Scan, scan_error, scan_packets_loop, wait_more, wait_packets_scanned, wait_packets_loop,
  axidma_wait_packets,
}
use open_jls_demos.AxiDma.Wait.Outcome.{TimedOut, desc_status-Ends, wait_more-At}

-- How the wait ends: with 0 just after the last descriptor of the ring was read as complete, with
-- -2 when the clock has passed the deadline, or with -1.
abbrev pub PacketsEnd : AxidmaRing → ℕ → ℤ → Trace → Type 0
PacketsEnd ring deadline rc t =
    ((rc ≡ pos 0)
      × (st : ℕ) × (u : Trace) × (t ≡ status_read (ring.off + (ring.count - 1) * desc_size) st ∷ u)
      × (test_bit st cmplt_bit ≡ true))
    ⊎ (((rc ≡ negsuc 1) × TimedOut deadline t) ⊎ (rc ≡ negsuc 0))

module _ {env : Env} {k : ℕ} (law : Lawful env k) where
  scan_packets-Polls :
      (ring : AxidmaRing) (n i : ℕ) → Polls env 0 1 (Any []) (scan_packets_loop n env ring i)
  unfolding scan_packets_loop
  scan_packets-Polls ring zero i = record { at = λ t. At-pure tt }
  scan_packets-Polls ring (suc n) i = record {
    at = λ t. At-bind (desc_status-Ends law ring i) (λ st u p.
        At-if (desc_err st) (λ _. At-pure tt)
          (λ _.
            At-if (test_bit st cmplt_bit && not (test_bit st eof_bit)) (λ _. At-pure tt)
              (λ _. (scan_packets-Polls ring n (i + 1)).at u)));
  }

  scan_packets-Silent : (ring : AxidmaRing) (n i : ℕ) → Silent env (scan_packets_loop n env ring i)
  scan_packets-Silent ring n i =
      Ends-Silent (λ _. Any [])
        (Polls-Ends 0 1 (Any []) (omega arith) (scan_packets-Polls ring n i))

module _ {env : Env} {k : ℕ} (law : Lawful env k) (calls : ℕ) (many : k < calls) (irq_ok : Bool)
    (deadline : ℕ) (ring : AxidmaRing) where
  after_scan-At :
      (fuel : ℕ) (s : Scan) (u : Trace)
      → Polls env
          ((deadline + 1) * 1_000_000)
          fuel
          (PacketsEnd ring deadline)
          (wait_packets_loop fuel calls env irq_ok ring deadline)
      → At env
          ((deadline + 1) * 1_000_000)
          (suc fuel)
          (PacketsEnd ring deadline)
          (wait_packets_scanned env ring
            (wait_more calls env irq_ok deadline
              (wait_packets_loop fuel calls env irq_ok ring deadline))
            s)
          u
  unfolding wait_packets_scanned
  after_scan-At fuel scan_error u p = At-pure (inr (inr refl))
  after_scan-At fuel s u p = At-bind (desc_status-Ends law ring (ring.count - 1)) (λ last v q.
      At-if (test_bit last cmplt_bit) (λ done. At-pure (inl (refl, last, u, q, done)))
        (λ _.
          wait_more-At law calls many irq_ok deadline (PacketsEnd ring deadline) fuel _ v
            (λ ns w h. inr (inl (refl, (ns, w, refl, h)))) p))

  packets_loop-Polls :
      (fuel : ℕ)
      → Polls env
          ((deadline + 1) * 1_000_000)
          fuel
          (PacketsEnd ring deadline)
          (wait_packets_loop fuel calls env irq_ok ring deadline)
  unfolding wait_packets_loop
  packets_loop-Polls zero = record { at = λ t. record { ends = λ h. absurd (omega arith) } }
  packets_loop-Polls (suc fuel) = record {
    at = λ t. At-then (uio_rd-Silent law dma (dma_sr s2mm)) (λ sr u.
        At-if (sr_any_err sr) (λ _. At-pure (inr (inr refl)))
          (λ _.
            At-then (sync_for_cpu-Silent law ring.db.buf ring.off (ring.count * desc_size)) (λ rc v.
              At-if (not (is_zero rc)) (λ _. At-pure (inr (inr refl)))
                (λ _.
                  At-then (scan_packets-Silent law ring ring.count 0)
                    (λ s w. after_scan-At fuel s w (packets_loop-Polls fuel))))));
  }

pub wait_packets-Ends :
    {env : Env} {k : ℕ} (fuel : ℕ) (irq_ok : Bool) (ring : AxidmaRing) (timeout_ms : ℕ)
    → Lawful env k
    → k < fuel
    → (timeout_ms + 2) * 1_000_000 < fuel
    → Ends env
        (λ t. PacketsEnd ring (ms_of (env.clock t) + timeout_ms))
        (axidma_wait_packets fuel env irq_ok ring timeout_ms)
unfolding axidma_wait_packets now_ms
wait_packets-Ends {env} fuel irq_ok ring timeout_ms law many f =
    Ends-deadline law.clock fuel ((timeout_ms + 2) * 1_000_000) f ms_of
      (λ now. (now + timeout_ms + 1) * 1_000_000) (λ now. PacketsEnd ring (now + timeout_ms))
      (λ now. wait_packets_loop fuel fuel env irq_ok ring (now + timeout_ms)) (λ ns. omega arith)
      (λ now. packets_loop-Polls law fuel many irq_ok (now + timeout_ms) ring fuel)

-- With fuel above the nanoseconds of the time limit, `axidma_wait_packets` ends whatever the engine
-- does, and leaves the socket alone. It returns 0 only just after the last descriptor of the ring
-- was read as complete, -2 only when the clock was read past the deadline, and otherwise -1.
pub wait_packets_total :
    {env : Env} {k : ℕ} (fuel : ℕ) (irq_ok : Bool) (ring : AxidmaRing) (timeout_ms : ℕ) (t : Trace)
    → Lawful env k
    → k < fuel
    → (timeout_ms + 2) * 1_000_000 < fuel
    → Returns
        (axidma_wait_packets fuel env irq_ok ring timeout_ms t)
        (λ rc t'. Quiet env t t' × PacketsEnd ring (ms_of (env.clock t) + timeout_ms) rc t')
wait_packets_total fuel irq_ok ring timeout_ms t law many f =
    (wait_packets-Ends fuel irq_ok ring timeout_ms law many f).ends t
