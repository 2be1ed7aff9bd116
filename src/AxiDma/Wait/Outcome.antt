-- ===== src/AxiDma/Wait/Outcome.antt =====
-- The waits end by their deadline, and what each result means.
use open_jls_demos.Prelude.{
  ℕ, zero, suc, ◌+◌, ◌-◌, ◌*◌, ◌<◌, ◌≡◌, refl, ◌⊎◌, inl, inr, Bool, true, false, not, ltb, ltb_iff,
  test_bit, if◌then◌else◌, ℤ, pos, negsuc, is_zero, ◌∷◌, arith,
}
use open_jls_demos.World.{Env, Trace, M, pure, ◌>>=◌, ◌>>◌, dma, clock_read, status_read}
use open_jls_demos.World.Returns.{Returns}
use open_jls_demos.World.Laws.{Lawful}
use open_jls_demos.World.Silent.{Quiet, Quiet-event}
use open_jls_demos.World.Polls.{
  Ends, Polls, At, At-pure, At-if, At-bind, At-then, At-clock, Polls-Ends, Ends-deadline,
}
use open_jls_demos.Uio.{now_ms, msleep_short, uio_irq_wait}
use open_jls_demos.Uio.Quiet.{uio_rd-Silent, msleep_short-Silent, uio_irq_wait-Silent}
use open_jls_demos.Udmabuf.Sync.{sync_for_cpu-Silent}
use open_jls_demos.AxiDma.{
  dma_sr, s2mm, sr_any_err, eof_bit, cmplt_bit, desc_err, desc_size, AxidmaRing,
}
use open_jls_demos.AxiDma.Reset.{ms_of}
use open_jls_demos.AxiDma.Wait.{
  desc_status, Scan, scan_error, scan_eof, scan_end, scan_eof_loop, wait_more, wait_verdict,
  wait_scanned, wait_loop, axidma_wait,
}

-- The last event is the read of a status word with the end mark and no error.
abbrev pub EndSeen : Trace → Type 0
EndSeen t =
    (o : ℕ) × (st : ℕ) × (u : Trace) × (t ≡ status_read o st ∷ u)
    × (desc_err st ≡ false)
    × (test_bit st eof_bit ≡ true)

abbrev pub TimedOut : ℕ → Trace → Type 0
TimedOut deadline t = (ns : ℕ) × (u : Trace) × (t ≡ clock_read ns ∷ u) × (deadline < ms_of ns)

-- How a wait on S2MM ends: with 0 just after an end mark was seen and the last status read, with
-- -2 when the clock has passed the deadline, or with -1.
abbrev pub WaitEnd : ℕ → ℤ → Trace → Type 0
WaitEnd deadline rc t =
    ((rc ≡ pos 0) × (o : ℕ) × (last : ℕ) × (u : Trace) × (t ≡ status_read o last ∷ u) × EndSeen u)
    ⊎ (((rc ≡ negsuc 1) × TimedOut deadline t) ⊎ (rc ≡ negsuc 0))

module _ {env : Env} {k : ℕ} (law : Lawful env k) where
  pub desc_status-Ends :
      (ring : AxidmaRing) (i : ℕ)
      → Ends env
          (λ t v t'. t' ≡ status_read (ring.off + i * desc_size) v ∷ t)
          (desc_status env ring i)
  unfolding desc_status
  desc_status-Ends ring i = record {
    ends = λ t. (Quiet-event law.clock t _ (λ u. (refl, refl)), refl);
  }

  abbrev ScanEnd : Scan → Trace → Type 0
  ScanEnd scan_eof t = EndSeen t
  ScanEnd s t = Unit

  scan_eof_loop-Polls :
      (ring : AxidmaRing) (n i : ℕ) → Polls env 0 1 ScanEnd (scan_eof_loop n env ring i)
  unfolding scan_eof_loop
  scan_eof_loop-Polls ring zero i = record { at = λ t. At-pure tt }
  scan_eof_loop-Polls ring (suc n) i = record {
    at = λ t. At-bind (desc_status-Ends ring i) (λ st u p.
        At-if (desc_err st) (λ _. At-pure tt)
          (λ fine.
            At-if (test_bit st eof_bit)
              (λ marked. At-pure (ring.off + i * desc_size, st, t, p, fine, marked))
              (λ _. (scan_eof_loop-Polls ring n (i + 1)).at u)));
  }

  scan_eof-Ends :
      (ring : AxidmaRing) (n i : ℕ) → Ends env (λ _. ScanEnd) (scan_eof_loop n env ring i)
  scan_eof-Ends ring n i = Polls-Ends 0 1 ScanEnd (omega arith) (scan_eof_loop-Polls ring n i)

module _ {env : Env} {k : ℕ} (law : Lawful env k) (calls : ℕ) (many : k < calls) (irq_ok : Bool)
    (deadline : ℕ) where
  abbrev limit : ℕ
  limit = (deadline + 1) * 1_000_000

  -- The end of a round, for any form of result that counts a timeout in.
  pub wait_more-At :
      (Q : ℤ → Trace → Type 0) (fuel : ℕ) (again : M ℤ) (t : Trace)
      → ((ns : ℕ) (u : Trace) → deadline < ms_of ns → Q (negsuc 1) (clock_read ns ∷ u))
      → Polls env limit fuel Q again
      → At env limit (suc fuel) Q (wait_more calls env irq_ok deadline again) t
  unfolding wait_more now_ms
  wait_more-At Q fuel again t late p =
      At-clock law.clock limit fuel Q ms_of (ltb deadline) (pure (negsuc 1))
        (if irq_ok then (uio_irq_wait calls env >>= λ _. again) else (msleep_short >> again)) t
        (λ ns h. ground arith) (λ ns u h. At-pure (late ns u ((ltb_iff _ _).0 h)))
        (record {
          at = λ u.
              At-if irq_ok (λ _. At-then (uio_irq_wait-Silent law calls many) (λ _ v. p.at v))
                (λ _. At-then (msleep_short-Silent law) (λ _ v. p.at v));
        })

  wait_scanned-At :
      (fuel : ℕ) (ring : AxidmaRing) (s : Scan) (u : Trace)
      → ScanEnd law s u
      → Polls env limit fuel (WaitEnd deadline) (wait_loop fuel calls env irq_ok s2mm ring deadline)
      → At env limit
          (suc fuel)
          (WaitEnd deadline)
          (wait_scanned env s2mm ring
            (wait_more calls env irq_ok deadline
              (wait_loop fuel calls env irq_ok s2mm ring deadline))
            s)
          u
  unfolding wait_scanned wait_verdict
  wait_scanned-At fuel ring scan_error u e p = At-pure (inr (inr refl))
  wait_scanned-At fuel ring scan_eof u e p =
      At-bind (desc_status-Ends law ring (ring.count - 1))
        (λ last v q. At-pure (inl (refl, ring.off + (ring.count - 1) * desc_size, last, u, q, e)))
  wait_scanned-At fuel ring scan_end u e p =
      At-bind (desc_status-Ends law ring (ring.count - 1)) (λ last v q.
        At-if (test_bit last cmplt_bit) (λ _. At-pure (inr (inr refl)))
          (λ _.
            wait_more-At (WaitEnd deadline) fuel _ v (λ ns w h. inr (inl (refl, (ns, w, refl, h))))
              p))

  wait_loop-Polls :
      (fuel : ℕ) (ring : AxidmaRing)
      → Polls env limit fuel (WaitEnd deadline) (wait_loop fuel calls env irq_ok s2mm ring deadline)
  unfolding wait_loop
  wait_loop-Polls zero ring = record { at = λ t. record { ends = λ h. absurd (omega arith) } }
  wait_loop-Polls (suc fuel) ring = record {
    at = λ t. At-then (uio_rd-Silent law dma (dma_sr s2mm)) (λ sr u.
        At-if (sr_any_err sr) (λ _. At-pure (inr (inr refl)))
          (λ _.
            At-then (sync_for_cpu-Silent law ring.db.buf ring.off (ring.count * desc_size)) (λ rc v.
              At-if (not (is_zero rc)) (λ _. At-pure (inr (inr refl)))
                (λ _.
                  At-bind (scan_eof-Ends law ring ring.count 0)
                    (λ s w e. wait_scanned-At fuel ring s w e (wait_loop-Polls fuel ring))))));
  }

pub axidma_wait-Ends :
    {env : Env} {k : ℕ} (fuel : ℕ) (irq_ok : Bool) (ring : AxidmaRing) (timeout_ms : ℕ)
    → Lawful env k
    → k < fuel
    → (timeout_ms + 2) * 1_000_000 < fuel
    → Ends env
        (λ t. WaitEnd (ms_of (env.clock t) + timeout_ms))
        (axidma_wait fuel env irq_ok s2mm ring timeout_ms)
unfolding axidma_wait now_ms
axidma_wait-Ends {env} fuel irq_ok ring timeout_ms law many f =
    Ends-deadline law.clock fuel ((timeout_ms + 2) * 1_000_000) f ms_of
      (λ now. (now + timeout_ms + 1) * 1_000_000) (λ now. WaitEnd (now + timeout_ms))
      (λ now. wait_loop fuel fuel env irq_ok s2mm ring (now + timeout_ms)) (λ ns. omega arith)
      (λ now. wait_loop-Polls law fuel many irq_ok (now + timeout_ms) fuel ring)

-- With fuel above the nanoseconds of the time limit, `axidma_wait` on S2MM ends whatever the engine
-- does, and leaves the socket alone. It returns 0 only just after a descriptor was read with the
-- end mark and no error bit, -2 only when the clock was read past the deadline, and otherwise -1.
pub axidma_wait_total :
    {env : Env} {k : ℕ} (fuel : ℕ) (irq_ok : Bool) (ring : AxidmaRing) (timeout_ms : ℕ) (t : Trace)
    → Lawful env k
    → k < fuel
    → (timeout_ms + 2) * 1_000_000 < fuel
    → Returns
        (axidma_wait fuel env irq_ok s2mm ring timeout_ms t)
        (λ rc t'. Quiet env t t' × WaitEnd (ms_of (env.clock t) + timeout_ms) rc t')
axidma_wait_total fuel irq_ok ring timeout_ms t law many f =
    (axidma_wait-Ends fuel irq_ok ring timeout_ms law many f).ends t
