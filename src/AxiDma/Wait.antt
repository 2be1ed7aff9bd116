-- ===== src/AxiDma/Wait.antt =====
-- Software/src/axidma.c: waiting for a ring to finish, and the bytes it moved.
pub mod Outcome
pub mod Packets
pub mod Bytes
use open_jls_demos.Prelude.{
  ℕ, zero, suc, ◌+◌, ◌-◌, ◌*◌, Bool, ◌&&◌, not, ◌∷◌, none, some, u32, test_bit, ltb, ◌==◌,
  if◌then◌else◌, ℤ, pos, negsuc, is_zero,
}
use open_jls_demos.World.{dma, status_read, Env, M, pure, ◌>>=◌, ◌>>◌}
use open_jls_demos.Uio.{uio_rd, uio_irq_wait, now_ms, msleep_short}
use open_jls_demos.Udmabuf.{udmabuf_sync_for_cpu}
use open_jls_demos.AxiDma.{
  s2mm, dma_sr, sr_any_err, desc_len, eof_bit, cmplt_bit, desc_err, desc_size, AxidmaRing,
}

-- `ring->desc[i].status`
unfoldable pub desc_status : Env → AxidmaRing → ℕ → M ℕ
desc_status env ring i t =
    let o = ring.off + i * desc_size in let v = env.status t o in some (v, status_read o v ∷ t)

-- How a scan of the descriptors ends.
pub data Scan : Type 0 where
  scan_error scan_eof scan_end : Scan

-- The `for` loop of `axidma_wait`: `n` descriptors are left, from index `i` on.
unfoldable pub scan_eof_loop : ℕ → Env → AxidmaRing → ℕ → M Scan
scan_eof_loop zero env ring i = pure scan_end
scan_eof_loop (suc n) env ring i = do
  st ← desc_status env ring i
  if desc_err st
      then pure scan_error
      else if test_bit st eof_bit
      then pure scan_eof
      else scan_eof_loop n env ring (i + 1)

-- The `for` loop of `axidma_wait_packets`.
unfoldable pub scan_packets_loop : ℕ → Env → AxidmaRing → ℕ → M Scan
scan_packets_loop zero env ring i = pure scan_end
scan_packets_loop (suc n) env ring i = do
  st ← desc_status env ring i
  if desc_err st
      then pure scan_error
      else if test_bit st cmplt_bit && not (test_bit st eof_bit)
      then pure scan_error
      else scan_packets_loop n env ring (i + 1)

-- The end of a round of a wait: the deadline, then a short sleep.
unfoldable pub wait_more : ℕ → Env → Bool → ℕ → M ℤ → M ℤ
wait_more calls env irq_ok deadline again = do
  now ← now_ms env
  if ltb deadline now
      then pure (negsuc 1)
      else if irq_ok
      then (do _ ← uio_irq_wait calls env; again)
      else (msleep_short >> again)

-- What `axidma_wait` makes of a scan and of the last descriptor's status.
unfoldable pub wait_verdict : ℕ → Scan → ℕ → M ℤ → M ℤ
wait_verdict chan scan_error last more = pure (negsuc 0)
wait_verdict chan scan_eof last more =
    if chan == s2mm then pure (pos 0) else if test_bit last cmplt_bit then pure (pos 0) else more
wait_verdict chan scan_end last more =
    if chan == s2mm
    then (if test_bit last cmplt_bit then pure (negsuc 0) else more)
    else if test_bit last cmplt_bit
    then pure (pos 0)
    else more

-- A descriptor error returns before the last status is read.
unfoldable pub wait_scanned : Env → ℕ → AxidmaRing → M ℤ → Scan → M ℤ
wait_scanned env chan ring more scan_error = pure (negsuc 0)
wait_scanned env chan ring more s = do
  last ← desc_status env ring (ring.count - 1)
  wait_verdict chan s last more

-- `calls` is the fuel of the interrupt wait.
unfoldable pub wait_loop : ℕ → ℕ → Env → Bool → ℕ → AxidmaRing → ℕ → M ℤ
unfolding wait_scanned wait_verdict wait_more
wait_loop zero calls env irq_ok chan ring deadline = λ t. none
wait_loop (suc fuel) calls env irq_ok chan ring deadline = do
  sr ← uio_rd env dma (dma_sr chan)
  if sr_any_err sr then pure (negsuc 0) else (do
    rc ← udmabuf_sync_for_cpu env ring.db.buf ring.off (ring.count * desc_size)
    if not (is_zero rc)
        then pure (negsuc 0)
        else (scan_eof_loop ring.count env ring 0
            >>= wait_scanned env chan ring (
                wait_more calls env irq_ok deadline
                  (wait_loop fuel calls env irq_ok chan ring deadline))))

-- -1 is an error, -2 a timeout.
unfoldable pub axidma_wait : ℕ → Env → Bool → ℕ → AxidmaRing → ℕ → M ℤ
axidma_wait fuel env irq_ok chan ring timeout_ms = do
  now ← now_ms env
  wait_loop fuel fuel env irq_ok chan ring (now + timeout_ms)

unfoldable pub wait_packets_scanned : Env → AxidmaRing → M ℤ → Scan → M ℤ
wait_packets_scanned env ring more scan_error = pure (negsuc 0)
wait_packets_scanned env ring more s = do
  last ← desc_status env ring (ring.count - 1)
  if test_bit last cmplt_bit then pure (pos 0) else more

unfoldable pub wait_packets_loop : ℕ → ℕ → Env → Bool → AxidmaRing → ℕ → M ℤ
unfolding wait_packets_scanned wait_more
wait_packets_loop zero calls env irq_ok ring deadline = λ t. none
wait_packets_loop (suc fuel) calls env irq_ok ring deadline = do
  sr ← uio_rd env dma (dma_sr s2mm)
  if sr_any_err sr then pure (negsuc 0) else (do
    rc ← udmabuf_sync_for_cpu env ring.db.buf ring.off (ring.count * desc_size)
    if not (is_zero rc)
        then pure (negsuc 0)
        else (scan_packets_loop ring.count env ring 0
            >>= wait_packets_scanned env ring (
                wait_more calls env irq_ok deadline
                  (wait_packets_loop fuel calls env irq_ok ring deadline))))

unfoldable pub axidma_wait_packets : ℕ → Env → Bool → AxidmaRing → ℕ → M ℤ
axidma_wait_packets fuel env irq_ok ring timeout_ms = do
  now ← now_ms env
  wait_packets_loop fuel fuel env irq_ok ring (now + timeout_ms)

-- The loop of `axidma_ring_bytes`: `n` descriptors are left, from index `i` on.
unfoldable pub ring_bytes_loop : ℕ → Env → AxidmaRing → ℕ → ℕ → M ℕ
ring_bytes_loop zero env ring i total = pure total
ring_bytes_loop (suc n) env ring i total = do
  st ← desc_status env ring i
  let total' = u32 (total + desc_len st)
  if test_bit st eof_bit then pure total' else ring_bytes_loop n env ring (i + 1) total'

unfoldable pub axidma_ring_bytes : Env → AxidmaRing → M ℕ
axidma_ring_bytes env ring = ring_bytes_loop ring.count env ring 0 0
