-- ===== src/Server/Encode/Answer.antt =====
-- `encode_and_reply` ends, and answers with one message at most.
use open_jls_demos.Prelude.{
  ℕ, zero, suc, ◌+◌, ◌<◌, ◌≡◌, sym, ap, ◌∙◌, true, false, List, [], ◌++◌, append-nil, length, none,
  some, Option, ℤ, pos, negsuc, IsU32, arith,
}
use open_jls_demos.World.{Env, Trace, M, pure, received, sent}
use open_jls_demos.World.Returns.{Returns}
use open_jls_demos.World.Laws.{Lawful, Enough}
use open_jls_demos.World.Silent.{Silent}
use open_jls_demos.World.Polls.{Ends-Silent}
use open_jls_demos.Uio.Quiet.{now_us-Silent}
use open_jls_demos.Udmabuf.Sync.{sync_for_device-Silent, sync_for_cpu-Silent}
use open_jls_demos.AxiDma.{AxidmaRing, s2mm, mm2s, desc_chunk}
use open_jls_demos.AxiDma.Reset.{axidma_reset-Ends}
use open_jls_demos.AxiDma.Ring.Quiet.{ring_build-Silent, sg_start-Silent}
use open_jls_demos.AxiDma.Wait.Outcome.{axidma_wait-Ends}
use open_jls_demos.AxiDma.Wait.Bytes.{ring_bytes-Ends}
use open_jls_demos.Proto.{OjlsHdr, ojls_hdr_pack}
use open_jls_demos.Proto.RoundTrip.{length-pack}
use open_jls_demos.Server.{Hw, or_return}
use open_jls_demos.Server.Io.{send_full}
use open_jls_demos.Server.Quiet.{
  hw_configure-Silent, gate_set-Silent, hw_recover-Silent, region_bytes-Ends,
}
use open_jls_demos.Server.Replies.{
  Sends, Sends-full, Sends-done, Sends-then, Sends-after, Replies, Reply, Replies-Sends,
  Replies-code, Replies-or_return, Replies-then, Replies-after,
}
use open_jls_demos.Server.Encode.{
  error_hdr, send_error, built_or_return, with_ring, encode_hdr, encode_reply, after_wait,
  encode_run, encode_and_reply,
}

-- The header of a successful reply with `n` bytes of bitstream.
abbrev pub success_hdr : OjlsHdr → ℕ → OjlsHdr
success_hdr req n = record {
  magic = 0x4F4A4C53;
  version = 1;
  type = 2;
  status = 0;
  width = req.width;
  height = req.height;
  bitness = req.bitness;
  ready_pct = 0;
  payload_len = n;
}

-- A header that announces exactly the bytes that follow it, and echoes the request.
abbrev pub IsEncodeReply : OjlsHdr → List ℕ → Type 0
IsEncodeReply req msg =
    (body : List ℕ) × (msg ≡ ojls_hdr_pack (success_hdr req (length body)) ++ body)
    × IsU32 (length body)

module _ {env : Env} {k : ℕ} (law : Lawful env k) where
  -- An error header and nothing else.
  pub send_error-Sends :
      (fuel : ℕ) (req : OjlsHdr) (status : ℕ)
      → 20 + k < fuel
      → Sends env
          (λ msg. msg ≡ ojls_hdr_pack (error_hdr req status))
          (send_error fuel env req status)
  unfolding send_error
  send_error-Sends fuel req status f =
      Sends-full fuel (ojls_hdr_pack (error_hdr req status)) law
        (omega (arith, length-pack (error_hdr req status)))

  pub with_ring-Replies :
      (G : List ℕ → Type 0) {m : M (ℤ × Option AxidmaRing)} {next : AxidmaRing → M ℤ}
      → Silent env m
      → ((ring : AxidmaRing) → Replies env G (next ring))
      → Replies env G (with_ring m next)
  unfolding built_or_return
  with_ring-Replies G {next} s r = Replies-then G s by_result
    where
      by_result : (x : ℤ × Option AxidmaRing) → Replies env G (built_or_return x next)
      by_result (pos zero, some ring) = r ring
      by_result (pos zero, none) = Replies-code G 7
      by_result (pos (suc n), o) = Replies-code G 7
      by_result (negsuc n, o) = Replies-code G 7

  module _ (hw : Hw) (req : OjlsHdr) (timeout_ms fuel : ℕ) (enough : Enough k timeout_ms fuel) where
    -- The header for `n` bytes, then a body of `n` bytes.
    reply_parts :
        (n : ℕ)
        → IsU32 n
        → (a b : List ℕ) → a ≡ ojls_hdr_pack (encode_hdr req n)
        → (length b ≡ n)
        → IsEncodeReply req (a ++ b)
    reply_parts n h a b e l = (
      b,
      ap (λ x. x ++ b) e ∙ ap (λ x. ojls_hdr_pack (success_hdr req x) ++ b) (sym l),
      omega arith,
    )

    encode_body-Sends :
        (n : ℕ)
        → IsU32 n
        → (bytes : List ℕ) → length bytes ≡ n
        → Sends env
            (λ b. length b ≡ n)
            (or_return (send_full fuel env bytes) (negsuc 0) (pure (pos 0)))
    encode_body-Sends n h bytes l =
        Sends-then (λ msg. msg ≡ bytes) (λ msg. msg ≡ []) (λ b. length b ≡ n)
          (λ a b e z. rw (e, z, append-nil) l) (Sends-full fuel bytes law (omega arith)) Sends-done

    encode_reply-Replies :
        (ring : AxidmaRing) → Replies env (IsEncodeReply req) (encode_reply fuel env hw req ring)
    unfolding encode_reply
    encode_reply-Replies ring = Replies-then (IsEncodeReply req) (now_us-Silent law) (λ _.
        Replies-after IsU32 (IsEncodeReply req) (ring_bytes-Ends law ring) (λ n h.
          Replies-or_return (IsEncodeReply req) 7 (sync_for_cpu-Silent law hw.rx.b.buf hw.rx.off n)
            (Replies-Sends (IsEncodeReply req) (
              Sends-then (λ a. a ≡ ojls_hdr_pack (encode_hdr req n)) (λ b. length b ≡ n)
                (IsEncodeReply req) (reply_parts n h)
                (Sends-full fuel (ojls_hdr_pack (encode_hdr req n)) law
                  (omega (arith, length-pack (encode_hdr req n))))
                (Sends-after (λ bs. length bs ≡ n) (λ b. length b ≡ n)
                  (region_bytes-Ends law hw.rx 0 n) (encode_body-Sends n h))))))

    after_wait-Replies :
        (ring : AxidmaRing) (rc : ℤ)
        → Replies env (IsEncodeReply req) (after_wait fuel env hw req ring rc)
    unfolding after_wait
    after_wait-Replies ring (pos zero) = encode_reply-Replies ring
    after_wait-Replies ring (pos (suc n)) =
        Replies-then (IsEncodeReply req)
          (hw_recover-Silent law fuel req.width req.height (omega arith)) (λ _. Replies-code _ 7)
    after_wait-Replies ring (negsuc zero) =
        Replies-then (IsEncodeReply req)
          (hw_recover-Silent law fuel req.width req.height (omega arith)) (λ _. Replies-code _ 7)
    after_wait-Replies ring (negsuc (suc zero)) =
        Replies-then (IsEncodeReply req)
          (hw_recover-Silent law fuel req.width req.height (omega arith)) (λ _. Replies-code _ 8)
    after_wait-Replies ring (negsuc (suc (suc n))) =
        Replies-then (IsEncodeReply req)
          (hw_recover-Silent law fuel req.width req.height (omega arith)) (λ _. Replies-code _ 7)

    encode_run-Replies :
        (out_ring in_ring : AxidmaRing)
        → Replies env (IsEncodeReply req) (encode_run fuel env hw req timeout_ms out_ring in_ring)
    unfolding encode_run
    encode_run-Replies out_ring in_ring = Replies-then (IsEncodeReply req) (now_us-Silent law) (λ _.
        Replies-or_return (IsEncodeReply req) 7 (sg_start-Silent law s2mm out_ring) (
          Replies-or_return (IsEncodeReply req) 7 (sg_start-Silent law mm2s in_ring) (
            Replies-then (IsEncodeReply req)
              (Ends-Silent _ (
                axidma_wait-Ends fuel hw.irq_ok out_ring timeout_ms law (omega arith)
                  (omega arith)))
              (after_wait-Replies out_ring))))

    pub encode_and_reply-Replies :
        Replies env (IsEncodeReply req) (encode_and_reply fuel env hw req timeout_ms)
    unfolding encode_and_reply
    encode_and_reply-Replies =
        let G = IsEncodeReply req in
        Replies-or_return G 7 (hw_configure-Silent law fuel req.width req.height (omega arith)) (
          Replies-or_return G 7 (gate_set-Silent law 100) (
            Replies-or_return G 7 (sync_for_device-Silent law hw.tx.b.buf hw.tx.off req.payload_len)
              (Replies-or_return G 7 (Ends-Silent _ (axidma_reset-Ends fuel law (omega arith))) (
                with_ring-Replies G (ring_build-Silent law hw.desc_buf 0 _ _ _ desc_chunk false)
                  (λ out_ring.
                    with_ring-Replies G (ring_build-Silent law hw.desc_buf _ _ _ _ desc_chunk true)
                      (λ in_ring.
                        Replies-or_return G 7
                          (sync_for_device-Silent law hw.desc_buf.buf 0 hw.desc_buf.size)
                          (encode_run-Replies out_ring in_ring)))))))

-- Under the laws and with enough fuel, `encode_and_reply` ends from every state of the board. It
-- reads nothing from the socket. A positive code means that nothing went out; 0 that exactly one
-- message went out, the header of a successful reply to this request followed by as many bytes as
-- its `payload_len` says; the only other code is -1.
pub encode_and_reply_total :
    {env : Env} {k : ℕ} (hw : Hw) (req : OjlsHdr) (timeout_ms fuel : ℕ) (t : Trace)
    → Lawful env k
    → Enough k timeout_ms fuel
    → Returns
        (encode_and_reply fuel env hw req timeout_ms t)
        (Reply (received t) (sent t) (IsEncodeReply req))
encode_and_reply_total hw req timeout_ms fuel t law enough =
    (encode_and_reply-Replies law hw req timeout_ms fuel enough).ends t
