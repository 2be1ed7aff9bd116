-- ===== src/Server/Stream/Outcome.antt =====
-- `stream_and_reply` ends, and answers with one message at most.
use open_jls_demos.Prelude.{
  ℕ, zero, suc, ◌*◌, ◌^◌, ◌<◌, ◌≡◌, ◌⊎◌, inl, inr, refl, true, false, u64, ◌/◌, ◌-◌, some, ℤ, pos,
  negsuc, arith,
}
use open_jls_demos.World.{Env, Trace, received, sent}
use open_jls_demos.World.Returns.{Returns, Returns-map}
use open_jls_demos.World.Laws.{Lawful, Enough}
use open_jls_demos.World.Silent.{Quiet, Quiet-refl, Grows-trans}
use open_jls_demos.World.Polls.{Ends-Silent}
use open_jls_demos.Udmabuf.Sync.{sync_for_device-Silent}
use open_jls_demos.AxiDma.{AxidmaRing, desc_chunk}
use open_jls_demos.AxiDma.Reset.{axidma_reset-Ends}
use open_jls_demos.AxiDma.Ring.Quiet.{ring_build-Silent}
use open_jls_demos.Proto.{OjlsHdr}
use open_jls_demos.Server.{Hw, or_return, region_phys}
use open_jls_demos.Server.Quiet.{hw_configure-Silent, gate_set-Silent}
use open_jls_demos.Server.Replies.{Replies, Reply}
use open_jls_demos.Server.Replies.From.{From, From-or_return, From-with_ring, From-earlier}
use open_jls_demos.Server.Stream.Answer.{TransferBound, IsStreamReply, outcome_code, StreamRun}
use open_jls_demos.Server.Request.{stream_slot_bytes}
use open_jls_demos.Server.Encode.{with_ring, hw_error}
use open_jls_demos.Udmabuf.{udmabuf_sync_for_device}
use open_jls_demos.AxiDma.Ring.{axidma_ring_build}
use open_jls_demos.Server.Stream.{stream_run, ready_level, stream_and_reply}
use open_jls_demos.Server.Stream.Run.{run-From}

module _ {env : Env} {k : ℕ} (law : Lawful env k) (cap : ℕ) (bound : TransferBound env cap) where
  module _ (hw : Hw) (req : OjlsHdr) (count timeout_ms fuel : ℕ) (enough : Enough k timeout_ms fuel)
      (short : cap < 2 ^ 32) where
    abbrev slot : ℕ
    slot = stream_slot_bytes (req.payload_len / count)

    -- From the first ring on.
    rings-Runs :
        (t : Trace) (out_ring : AxidmaRing) (a b : Trace)
        → Quiet env t a
        → axidma_ring_build hw.desc_buf 0
            (hw.desc_buf.size / 2)
            (region_phys hw.rx)
            (u64 (slot * count))
            slot
            false
            a
          ≡ some ((pos 0, some out_ring), b)
        → Quiet env t b
        → Returns
            (with_ring
              (axidma_ring_build hw.desc_buf
                (hw.desc_buf.size / 2)
                (hw.desc_buf.size - hw.desc_buf.size / 2)
                (region_phys hw.tx)
                req.payload_len
                desc_chunk
                true)
              (λ in_ring.
                or_return
                  (udmabuf_sync_for_device env hw.desc_buf.buf 0 hw.desc_buf.size)
                  hw_error
                  (stream_run fuel env hw req count slot timeout_ms out_ring in_ring))
              b)
            (From env t (StreamRun env fuel hw req count timeout_ms cap t))
    rings-Runs t out_ring a b p e q =
        let Good = StreamRun env fuel hw req count timeout_ms cap t in
        From-earlier env Good _ q (
          From-with_ring env b Good _ _ (ring_build-Silent law hw.desc_buf _ _ _ _ desc_chunk true)
            (Quiet-refl b)
            (λ in_ring v₁ _ q₁.
              From-or_return env b Good 7 _ _
                (sync_for_device-Silent law hw.desc_buf.buf 0 hw.desc_buf.size) q₁
                (λ v₂ q₂. From-earlier env Good _ q₂ (
                  run-From law cap bound hw req count timeout_ms fuel enough short Good slot
                    out_ring in_ring v₂
                    (λ waiting w rc lens c v msg g x r l s h i. record {
                      ring = out_ring;
                      rc = rc;
                      lens = lens;
                      building = a;
                      built = b;
                      waiting = waiting;
                      waited = w;
                      collected = c;
                      began = p.grows;
                      build = e;
                      prepared = Grows-trans q₂.grows g;
                      wait = x;
                      reported = r;
                      counted = l;
                      short = s;
                      ended = h;
                      reply = i;
                    })))))

    pub stream_and_reply-Runs :
        (t : Trace)
        → Returns
            (stream_and_reply fuel env hw req count timeout_ms t)
            (From env t (StreamRun env fuel hw req count timeout_ms cap t))
    unfolding stream_and_reply
    stream_and_reply-Runs t =
        let Good = StreamRun env fuel hw req count timeout_ms cap t in
        From-or_return env t Good 7 _ _
          (hw_configure-Silent law fuel req.width req.height (omega arith)) (Quiet-refl t)
          (λ v₁ q₁.
            From-or_return env t Good 7 _ _ (gate_set-Silent law (ready_level req)) q₁ (λ v₂ q₂.
              From-or_return env t Good 7 _ _
                (sync_for_device-Silent law hw.tx.b.buf hw.tx.off req.payload_len) q₂
                (λ v₃ q₃.
                  From-or_return env t Good 7 _ _
                    (Ends-Silent _ (axidma_reset-Ends fuel law (omega arith))) q₃
                    (λ v₄ q₄.
                      From-with_ring env t Good _ _
                        (ring_build-Silent law hw.desc_buf 0 _ _ _ _ false) q₄
                        (λ out_ring b e q₅. rings-Runs t out_ring v₄ b q₄ e q₅)))))

    IsCode-outcome :
        (rc : ℤ) → (outcome_code rc ≡ 0) ⊎ ((outcome_code rc ≡ 8) ⊎ (outcome_code rc ≡ 9))
    IsCode-outcome (pos zero) = inl refl
    IsCode-outcome (pos (suc n)) = inr (inl refl)
    IsCode-outcome (negsuc zero) = inr (inl refl)
    IsCode-outcome (negsuc (suc zero)) = inr (inr refl)
    IsCode-outcome (negsuc (suc (suc n))) = inr (inl refl)

    -- The message alone.
    pub stream_and_reply-Replies :
        Replies env
          (IsStreamReply req count cap)
          (stream_and_reply fuel env hw req count timeout_ms)
    stream_and_reply-Replies = record {
      ends = λ t.
          Returns-map (stream_and_reply fuel env hw req count timeout_ms t)
            (From env t (StreamRun env fuel hw req count timeout_ms cap t))
            (Reply (received t) (sent t) (IsStreamReply req count cap)) (stream_and_reply-Runs t)
            (λ rc u r. record {
              deaf = r.deaf;
              outcome = elim r.outcome [
                | inl code ↦ inl code
                | inr (inl (msg, z, e, g)) ↦ inr (
                    inl (
                      msg,
                      z,
                      e,
                      (outcome_code g.rc, g.lens, IsCode-outcome g.rc, g.counted, g.short, g.reply),
                    ))
                | inr (inr bad) ↦ inr (inr bad)
              ];
            });
    }

-- Under the laws and with enough fuel, `stream_and_reply` ends from every state of the board, if
-- the engine reports no more than `cap` bytes for a descriptor. It reads nothing from the socket.
-- A positive code means that nothing went out; 0 that exactly one message went out, and the only
-- other code is -1. With 0, the ring for the images was built, with a slot for each, and waited for;
-- the status in the header of the stream is 0 where that wait returned 0, 9 where it returned -2
-- for a timeout, and 8 otherwise. The table has `count` lengths, each at most `cap`: that of each
-- descriptor that the ring then showed with an end mark, and 0 from the first one without. As many
-- bytes follow as the table says; `payload_len` is the size of table and images modulo 2 ^ 32.
pub stream_and_reply_total :
    {env : Env} {k : ℕ} (cap : ℕ) (hw : Hw) (req : OjlsHdr) (count timeout_ms fuel : ℕ) (t : Trace)
    → Lawful env k
    → TransferBound env cap
    → cap < 2 ^ 32
    → Enough k timeout_ms fuel
    → Returns (stream_and_reply fuel env hw req count timeout_ms t) (λ rc u.
      Reply (received t) (sent t) (StreamRun env fuel hw req count timeout_ms cap t u) rc u)
stream_and_reply_total cap hw req count timeout_ms fuel t law bound short enough =
    stream_and_reply-Runs law cap bound hw req count timeout_ms fuel enough short t
