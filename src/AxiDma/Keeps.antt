-- ===== src/AxiDma/Keeps.antt =====
-- Reset and waits of the engine make plain events, but for the invalidation of the descriptors.
use open_jls_demos.Prelude.{
  ℕ, zero, suc, ◌+◌, ◌-◌, ◌*◌, ◌&&◌, refl, Bool, not, u32, test_bit, ltb, ◌==◌, ℤ, is_zero,
}
use open_jls_demos.World.{Env, M, Trace, dma}
use open_jls_demos.World.Keeps.{
  Keeps, IsCalm, Keeps-pure, Keeps-stuck, Keeps-bind, Keeps-if, Keeps-plain,
}
use open_jls_demos.Uio.Keeps.{
  uio_rd-Keeps, uio_wr-Keeps, irq_wait-Keeps, now_ms-Keeps, msleep_short-Keeps,
}
use open_jls_demos.Udmabuf.{udmabuf_sync_for_cpu}
use open_jls_demos.AxiDma.{
  mm2s, s2mm, dma_cr, dma_sr, cr_reset, sr_any_err, desc_len, eof_bit, cmplt_bit, desc_err,
  desc_size, AxidmaRing, reset_loop, axidma_reset,
}
use open_jls_demos.AxiDma.Wait.{
  desc_status, Scan, scan_error, scan_eof, scan_end, scan_eof_loop, scan_packets_loop, wait_more,
  wait_verdict, wait_scanned, wait_loop, axidma_wait, wait_packets_scanned, wait_packets_loop,
  axidma_wait_packets, ring_bytes_loop, axidma_ring_bytes,
}

module _ {R : Trace → Trace → Type 0} (calm : IsCalm R) (env : Env) where
  reset_loop-Keeps : (fuel deadline : ℕ) → Keeps R (reset_loop fuel env deadline)
  unfolding reset_loop
  reset_loop-Keeps zero deadline = Keeps-stuck calm.pre
  reset_loop-Keeps (suc fuel) deadline =
      let late = Keeps-bind calm.pre (now_ms-Keeps calm env) (λ now.
        Keeps-if (ltb deadline now) (Keeps-pure calm.pre _) (
          Keeps-bind calm.pre (msleep_short-Keeps calm env)
            (λ _. reset_loop-Keeps fuel deadline))) in
      Keeps-bind calm.pre (uio_rd-Keeps calm env dma (dma_cr mm2s)) (λ a.
        Keeps-if (test_bit a 2) late (
          Keeps-bind calm.pre (uio_rd-Keeps calm env dma (dma_cr s2mm))
            (λ b. Keeps-if (test_bit b 2) late (Keeps-pure calm.pre _))))

  pub reset-Keeps : (fuel : ℕ) → Keeps R (axidma_reset fuel env)
  unfolding axidma_reset
  reset-Keeps fuel = Keeps-bind calm.pre (now_ms-Keeps calm env) (λ now.
      Keeps-bind calm.pre (uio_wr-Keeps calm env dma (dma_cr mm2s) cr_reset refl) (λ _.
        Keeps-bind calm.pre (uio_wr-Keeps calm env dma (dma_cr s2mm) cr_reset refl)
          (λ _. reset_loop-Keeps fuel (now + 100))))

  pub desc_status-Keeps : (ring : AxidmaRing) (i : ℕ) → Keeps R (desc_status env ring i)
  unfolding desc_status
  desc_status-Keeps ring i = Keeps-plain calm _ _ (λ t. refl)

  scan_eof-Keeps : (n : ℕ) (ring : AxidmaRing) (i : ℕ) → Keeps R (scan_eof_loop n env ring i)
  unfolding scan_eof_loop
  scan_eof-Keeps zero ring i = Keeps-pure calm.pre _
  scan_eof-Keeps (suc n) ring i = Keeps-bind calm.pre (desc_status-Keeps ring i) (λ st.
      Keeps-if (desc_err st) (Keeps-pure calm.pre _)
        (Keeps-if (test_bit st eof_bit) (Keeps-pure calm.pre _) (scan_eof-Keeps n ring (i + 1))))

  scan_packets-Keeps :
      (n : ℕ) (ring : AxidmaRing) (i : ℕ) → Keeps R (scan_packets_loop n env ring i)
  unfolding scan_packets_loop
  scan_packets-Keeps zero ring i = Keeps-pure calm.pre _
  scan_packets-Keeps (suc n) ring i = Keeps-bind calm.pre (desc_status-Keeps ring i) (λ st.
      Keeps-if (desc_err st) (Keeps-pure calm.pre _) (
        Keeps-if (test_bit st cmplt_bit && not (test_bit st eof_bit)) (Keeps-pure calm.pre _)
          (scan_packets-Keeps n ring (i + 1))))

  wait_more-Keeps :
      (calls : ℕ) (irq_ok : Bool) (deadline : ℕ) (again : M ℤ)
      → Keeps R again
      → Keeps R (wait_more calls env irq_ok deadline again)
  unfolding wait_more
  wait_more-Keeps calls irq_ok deadline again h =
      Keeps-bind calm.pre (now_ms-Keeps calm env) (λ now.
        Keeps-if (ltb deadline now) (Keeps-pure calm.pre _) (
          Keeps-if irq_ok (Keeps-bind calm.pre (irq_wait-Keeps calm env calls) (λ _. h))
            (Keeps-bind calm.pre (msleep_short-Keeps calm env) (λ _. h))))

  verdict-Keeps :
      (chan : ℕ) (s : Scan) (last : ℕ) (more : M ℤ)
      → Keeps R more
      → Keeps R (wait_verdict chan s last more)
  unfolding wait_verdict
  verdict-Keeps chan scan_error last more h = Keeps-pure calm.pre _
  verdict-Keeps chan scan_eof last more h =
      Keeps-if (chan == s2mm) (Keeps-pure calm.pre _)
        (Keeps-if (test_bit last cmplt_bit) (Keeps-pure calm.pre _) h)
  verdict-Keeps chan scan_end last more h =
      Keeps-if (chan == s2mm) (Keeps-if (test_bit last cmplt_bit) (Keeps-pure calm.pre _) h)
        (Keeps-if (test_bit last cmplt_bit) (Keeps-pure calm.pre _) h)

  scanned-Keeps :
      (chan : ℕ) (ring : AxidmaRing) (more : M ℤ)
      → Keeps R more
      → (s : Scan) → Keeps R (wait_scanned env chan ring more s)
  unfolding wait_scanned
  scanned-Keeps chan ring more h scan_error = Keeps-pure calm.pre _
  scanned-Keeps chan ring more h scan_eof =
      Keeps-bind calm.pre (desc_status-Keeps ring (ring.count - 1))
        (λ last. verdict-Keeps chan scan_eof last more h)
  scanned-Keeps chan ring more h scan_end =
      Keeps-bind calm.pre (desc_status-Keeps ring (ring.count - 1))
        (λ last. verdict-Keeps chan scan_end last more h)

  packets_scanned-Keeps :
      (ring : AxidmaRing) (more : M ℤ)
      → Keeps R more
      → (s : Scan) → Keeps R (wait_packets_scanned env ring more s)
  unfolding wait_packets_scanned
  packets_scanned-Keeps ring more h scan_error = Keeps-pure calm.pre _
  packets_scanned-Keeps ring more h scan_eof =
      Keeps-bind calm.pre (desc_status-Keeps ring (ring.count - 1))
        (λ last. Keeps-if (test_bit last cmplt_bit) (Keeps-pure calm.pre _) h)
  packets_scanned-Keeps ring more h scan_end =
      Keeps-bind calm.pre (desc_status-Keeps ring (ring.count - 1))
        (λ last. Keeps-if (test_bit last cmplt_bit) (Keeps-pure calm.pre _) h)

  pub ring_bytes-Keeps : (ring : AxidmaRing) → Keeps R (axidma_ring_bytes env ring)
  unfolding axidma_ring_bytes ring_bytes_loop
  ring_bytes-Keeps ring = go ring.count 0 0
    where
      go : (n i total : ℕ) → Keeps R (ring_bytes_loop n env ring i total)
      go zero i total = Keeps-pure calm.pre total
      go (suc n) i total = Keeps-bind calm.pre (desc_status-Keeps ring i) (λ st.
          Keeps-if (test_bit st eof_bit) (Keeps-pure calm.pre _)
            (go n (i + 1) (u32 (total + desc_len st))))

  -- A ring whose descriptors may be invalidated.
  module _ (ring : AxidmaRing)
      (sync : Keeps R
        (udmabuf_sync_for_cpu env ring.db.buf ring.off (ring.count * desc_size))) where
    wait_loop-Keeps :
        (fuel calls : ℕ) (irq_ok : Bool) (chan deadline : ℕ)
        → Keeps R (wait_loop fuel calls env irq_ok chan ring deadline)
    unfolding wait_loop
    wait_loop-Keeps zero calls irq_ok chan deadline = Keeps-stuck calm.pre
    wait_loop-Keeps (suc fuel) calls irq_ok chan deadline =
        Keeps-bind calm.pre (uio_rd-Keeps calm env dma (dma_sr chan)) (λ sr.
          Keeps-if (sr_any_err sr) (Keeps-pure calm.pre _) (
            Keeps-bind calm.pre sync (λ rc. Keeps-if (not (is_zero rc)) (Keeps-pure calm.pre _) (
              Keeps-bind calm.pre (scan_eof-Keeps ring.count ring 0) (
                scanned-Keeps chan ring _ (
                  wait_more-Keeps calls irq_ok deadline _
                    (wait_loop-Keeps fuel calls irq_ok chan deadline)))))))

    pub wait-Keeps :
        (fuel : ℕ) (irq_ok : Bool) (chan timeout_ms : ℕ)
        → Keeps R (axidma_wait fuel env irq_ok chan ring timeout_ms)
    unfolding axidma_wait
    wait-Keeps fuel irq_ok chan timeout_ms =
        Keeps-bind calm.pre (now_ms-Keeps calm env)
          (λ now. wait_loop-Keeps fuel fuel irq_ok chan (now + timeout_ms))

    packets_loop-Keeps :
        (fuel calls : ℕ) (irq_ok : Bool) (deadline : ℕ)
        → Keeps R (wait_packets_loop fuel calls env irq_ok ring deadline)
    unfolding wait_packets_loop
    packets_loop-Keeps zero calls irq_ok deadline = Keeps-stuck calm.pre
    packets_loop-Keeps (suc fuel) calls irq_ok deadline =
        Keeps-bind calm.pre (uio_rd-Keeps calm env dma (dma_sr s2mm)) (λ sr.
          Keeps-if (sr_any_err sr) (Keeps-pure calm.pre _) (
            Keeps-bind calm.pre sync (λ rc. Keeps-if (not (is_zero rc)) (Keeps-pure calm.pre _) (
              Keeps-bind calm.pre (scan_packets-Keeps ring.count ring 0) (
                packets_scanned-Keeps ring _ (
                  wait_more-Keeps calls irq_ok deadline _
                    (packets_loop-Keeps fuel calls irq_ok deadline)))))))

    pub wait_packets-Keeps :
        (fuel : ℕ) (irq_ok : Bool) (timeout_ms : ℕ)
        → Keeps R (axidma_wait_packets fuel env irq_ok ring timeout_ms)
    unfolding axidma_wait_packets
    wait_packets-Keeps fuel irq_ok timeout_ms =
        Keeps-bind calm.pre (now_ms-Keeps calm env)
          (λ now. packets_loop-Keeps fuel fuel irq_ok (now + timeout_ms))
