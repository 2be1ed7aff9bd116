-- ===== src/Server/Stream/Run.antt =====
-- `stream_and_reply` from the allocation of the lengths on.
use open_jls_demos.Prelude.{
  ℕ, zero, suc, ◌*◌, ◌^◌, ◌≤◌, ◌<◌, ◌≡◌, inl, inr, refl, not, List, [], append-nil, length, sym,
  ◌∷◌, some, All, ℤ, pos, negsuc, arith,
}
use open_jls_demos.World.{Env, Trace, pure, ◌>>◌, received, sent}
use mathlib.Core.Path.{subst}
use open_jls_demos.World.Returns.{Returns, Returns-map, Returns-if}
use open_jls_demos.World.Laws.{Lawful, Enough}
use open_jls_demos.World.Silent.{Quiet-refl, Grows, Grows-refl, Grows-trans}
use open_jls_demos.World.Polls.{Ends, At-pure, At-then, Polls-Ends, Ends-Silent}
use open_jls_demos.Uio.Quiet.{now_us-Silent}
use open_jls_demos.Udmabuf.Sync.{sync_for_cpu-Silent}
use open_jls_demos.AxiDma.{AxidmaRing, s2mm, mm2s}
use open_jls_demos.AxiDma.Ring.Quiet.{sg_start-Silent}
use open_jls_demos.AxiDma.Wait.Packets.{wait_packets-Ends}
use open_jls_demos.Proto.{OjlsHdr}
use open_jls_demos.Server.{Hw, or_return, hw_recover, region_bytes}
use open_jls_demos.Server.Quiet.{hw_recover-Silent, region_bytes-Ends}
use open_jls_demos.Server.Replies.{Sending, Sends-then, Sends-done}
use open_jls_demos.Server.Replies.From.{
  From, From-bind, From-then, From-or_return, From-code, From-earlier,
}
use open_jls_demos.World.Keeps.{IsCalm, Returns-and}
use open_jls_demos.Server.Keeps.Core.{or_return-Keeps}
use open_jls_demos.Server.Keeps.Requests.{stream_send-Keeps}
use open_jls_demos.Server.Stream.Answer.{TransferBound, outcome_code, Reported}
use open_jls_demos.AxiDma.Wait.{axidma_wait_packets}
use open_jls_demos.Server.Stream.{stream_send, stream_status, stream_reply, stream_run}
use open_jls_demos.Server.Stream.Send.{IsStream, stream_send-Sends, sys_alloc-Silent}
use open_jls_demos.Server.Stream.Lengths.{Reported-earlier, collect_lens-Ends}

Grows-IsCalm : IsCalm Grows
Grows-IsCalm = record {
  pre = record { same = Grows-refl; after = Grows-trans };
  plain = λ e h t. (e ∷ [], refl);
}

module _ {env : Env} {k : ℕ} (law : Lawful env k) (cap : ℕ) (bound : TransferBound env cap) where
  module _ (hw : Hw) (req : OjlsHdr) (count timeout_ms fuel : ℕ) (enough : Enough k timeout_ms fuel)
      (short : cap < 2 ^ 32) where
    recovered :
        (code : ℕ)
        → Ends env
            (λ _ status _. status ≡ code)
            (hw_recover fuel env req.width req.height >> pure code)
    recovered code =
        Polls-Ends 0 1 (λ status _. status ≡ code) (omega arith)
          (record {
            at = λ t.
                At-then (hw_recover-Silent law fuel req.width req.height (omega arith))
                  (λ _ u. At-pure refl);
          })

    -- The code of the wait decides the status.
    status-Ends :
        (rc : ℤ) → Ends env (λ _ status _. status ≡ outcome_code rc) (stream_status fuel env req rc)
    unfolding stream_status
    status-Ends (pos zero) = record { ends = λ t. (Quiet-refl t, refl) }
    status-Ends (pos (suc n)) = recovered 8
    status-Ends (negsuc zero) = recovered 8
    status-Ends (negsuc (suc zero)) = recovered 9
    status-Ends (negsuc (suc (suc n))) = recovered 8

    -- From the lengths on: `Good` is what a message is to be.
    sent-From :
        (Good : Trace → List ℕ → Type 0) (slot' : ℕ) (lens : List ℕ) (rc : ℤ) (u : Trace)
        → length lens ≡ count
        → All (λ l. l ≤ cap) lens
        → ((v : Trace) (msg : List ℕ)
            → Grows u v
            → IsStream req (outcome_code rc) lens msg
            → Good v msg)
        → Returns
            (or_return
              (stream_send fuel env req (outcome_code rc) (region_bytes env hw.rx) slot' lens count)
              (negsuc 0)
              (pure (pos 0))
              u)
            (From env u Good)
    unfolding region_bytes
    sent-From Good slot' lens rc u l a good =
        let status = outcome_code rc in
        let read = region_bytes env hw.rx in
        let m =
          or_return (stream_send fuel env req status read slot' lens count) (negsuc 0)
            (pure (pos 0)) in
        let G = IsStream req status lens in
        Returns-map (m u) (λ rc v. Sending (received u) (sent u) G rc v × Grows u v)
          (From env u Good)
          (Returns-and m u (Sending (received u) (sent u) G)
            ((Sends-then G (λ b. b ≡ []) G
                (λ x y (images, n, e) z. (images, n, rw (z, append-nil) e))
                (stream_send-Sends law fuel cap (omega arith) read slot' req status count lens
                  (λ off len _. region_bytes-Ends law hw.rx off len) a l)
                Sends-done).ends
              u)
            (or_return-Keeps Grows-IsCalm env _ _ _
              (stream_send-Keeps Grows-IsCalm env fuel req status read slot' lens count
                (λ off n. record { runs = λ t. (_ ∷ [], refl) }))
              (record { runs = Grows-refl })))
          (λ r v (s, g). record {
            deaf = s.deaf;
            outcome = elim s.outcome [
              | inl (msg, z, e, i) ↦ inr (inl (msg, z, e, good v msg g i))
              | inr n ↦ inr (inr n)
            ];
          })

    reply-From :
        (Good : Trace → List ℕ → Type 0) (slot' : ℕ) (ring : AxidmaRing) (rc : ℤ) (w : Trace)
        → ((lens : List ℕ) (c v : Trace) (msg : List ℕ)
            → Reported env ring.off w c 0 lens
            → length lens ≡ count
            → All (λ l. l ≤ cap) lens
            → Grows c v
            → IsStream req (outcome_code rc) lens msg
            → Good v msg)
        → Returns (stream_reply fuel env hw req count slot' ring rc w) (From env w Good)
    unfolding stream_reply
    reply-From Good slot' ring rc w good =
        From-then env w Good _ _ (now_us-Silent law) (Quiet-refl w) (λ _ v₁ _ q₁.
          From-bind env w Good _ _ (status-Ends rc) q₁ (λ status v₂ _ p q₂.
            From-or_return env w Good 7 _ _ (sync_for_cpu-Silent law hw.desc_buf.buf 0 _) q₂
              (λ v₃ q₃.
                From-or_return env w Good 7 _ _ (sync_for_cpu-Silent law hw.rx.b.buf hw.rx.off _) q₃
                  (λ v₄ q₄.
                    From-bind env w Good _ _ (collect_lens-Ends law cap bound ring count 0) q₄
                      (λ lens c _ (l, a, r, g) q₅. From-earlier env Good _ q₅ (
                        subst
                          (λ st.
                            Returns
                              (or_return
                                (stream_send fuel env req st (region_bytes env hw.rx) slot' lens
                                  count)
                                (negsuc 0) (pure (pos 0)) c)
                              (From env c Good))
                          (sym p)
                          (sent-From Good slot' lens rc c l a (λ v msg h i.
                            good lens c v msg (Reported-earlier env ring.off c 0 lens q₄.grows r) l
                              a h i))))))))

    pub run-From :
        (Good : Trace → List ℕ → Type 0) (slot' : ℕ) (out_ring in_ring : AxidmaRing) (b : Trace)
        → ((waiting w : Trace) (rc : ℤ) (lens : List ℕ) (c v : Trace) (msg : List ℕ)
            → Grows b waiting
            → axidma_wait_packets fuel env hw.irq_ok out_ring timeout_ms waiting ≡ some (rc, w)
            → Reported env out_ring.off w c 0 lens
            → length lens ≡ count
            → All (λ l. l ≤ cap) lens
            → Grows c v
            → IsStream req (outcome_code rc) lens msg
            → Good v msg)
        → Returns
            (stream_run fuel env hw req count slot' timeout_ms out_ring in_ring b)
            (From env b Good)
    unfolding stream_run
    run-From Good slot' out_ring in_ring b good =
        From-then env b Good _ _ (sys_alloc-Silent law (count * 4)) (Quiet-refl b)
          (λ memory v₁ _ q₁.
            Returns-if (not memory) _ _ v₁ (From env b Good) (λ _. From-code env b Good 7 q₁)
              (λ _. From-then env b Good _ _ (now_us-Silent law) q₁ (λ _ v₂ _ q₂.
                From-or_return env b Good 7 _ _ (sg_start-Silent law s2mm out_ring) q₂ (λ v₃ q₃.
                  From-or_return env b Good 7 _ _ (sg_start-Silent law mm2s in_ring) q₃ (λ v₄ q₄.
                    From-then env b Good _ _
                      (Ends-Silent _ (
                        wait_packets-Ends fuel hw.irq_ok out_ring timeout_ms law (omega arith)
                          (omega arith)))
                      q₄
                      (λ rc w e q₅. From-earlier env Good _ q₅ (
                        reply-From Good slot' out_ring rc w
                          (λ lens c v msg. good v₄ w rc lens c v msg q₄.grows e))))))))
