-- ===== src/Server/Stream.antt =====
-- Software/src/ojls_server.c: `stream_send` and `stream_and_reply`.
pub mod Rings
pub mod Send
pub mod Answer
pub mod Lengths
pub mod Run
pub mod Outcome
use open_jls_demos.Prelude.{
  ℕ, zero, suc, ◌+◌, ◌-◌, ◌*◌, ◌/◌, Bool, true, false, not, List, [], ◌∷◌, replicate, some, u32,
  u64, test_bit, ◌!=◌, if◌then◌else◌, ℤ, pos, negsuc,
}
use open_jls_demos.World.{allocated, Env, M, pure, ◌>>=◌, ◌>>◌}
use open_jls_demos.Uio.{now_us}
use open_jls_demos.Udmabuf.{udmabuf_sync_for_device, udmabuf_sync_for_cpu}
use open_jls_demos.AxiDma.{
  AxidmaRing, axidma_reset, axidma_sg_start, s2mm, mm2s, desc_chunk, desc_size, desc_len, eof_bit,
}
use open_jls_demos.AxiDma.Ring.{axidma_ring_build}
use open_jls_demos.AxiDma.Wait.{axidma_wait_packets, desc_status}
use open_jls_demos.Proto.{
  OjlsHdr, msg_stream_resp, st_ok, st_hw_error, st_hw_timeout, ojls_hdr_pack, ojls_put_u32,
}
use open_jls_demos.Server.{
  Hw, region_phys, region_bytes, or_return, hw_configure, gate_set, hw_recover,
}
use open_jls_demos.Server.Io.{send_full}
use open_jls_demos.Server.Request.{stream_slot_bytes}
use open_jls_demos.Server.Encode.{hw_error, with_ring}
use open_jls_demos.World.System.{sys_alloc}

-- `total += lens[i]` over the lengths.
unfoldable pub total_len : ℕ → List ℕ → ℕ
total_len acc [] = acc
total_len acc (l ∷ ls) = total_len (u32 (acc + l)) ls

unfoldable pub stream_hdr : OjlsHdr → ℕ → List ℕ → ℕ → OjlsHdr
stream_hdr req status lens count = record req {
  type = msg_stream_resp;
  status = status;
  payload_len = total_len (u32 (count * 4)) lens;
}

unfoldable pub send_lens : ℕ → Env → List ℕ → M ℤ
send_lens fuel env [] = pure (pos 0)
send_lens fuel env (l ∷ ls) =
    or_return (send_full fuel env (ojls_put_u32 l)) (negsuc 0) (send_lens fuel env ls)

-- The image with index `i` lies at `i * slot` from `base`, where `read` reads.
unfoldable pub send_images : ℕ → Env → (ℕ → ℕ → M (List ℕ)) → ℕ → ℕ → List ℕ → M ℤ
send_images fuel env read slot i [] = pure (pos 0)
send_images fuel env read slot i (l ∷ ls) = do
  bytes ← read (u32 (i * slot)) l
  or_return (send_full fuel env bytes) (negsuc 0) (send_images fuel env read slot (i + 1) ls)

-- `lens` has `count` elements.
unfoldable pub stream_send : ℕ → Env → OjlsHdr → ℕ → (ℕ → ℕ → M (List ℕ)) → ℕ → List ℕ → ℕ → M ℤ
stream_send fuel env req status read slot lens count =
    or_return (send_full fuel env (ojls_hdr_pack (stream_hdr req status lens count))) (negsuc 0)
      (or_return (send_lens fuel env lens) (negsuc 0) (send_images fuel env read slot 0 lens))

-- The loop that fills the zeroed `lens`: `n` images are left, from index `closed` on.
unfoldable pub collect_lens : ℕ → Env → AxidmaRing → ℕ → M (List ℕ)
collect_lens zero env ring closed = pure []
collect_lens (suc n) env ring closed = do
  st ← desc_status env ring closed
  if not (test_bit st eof_bit)
      then pure (replicate (suc n) 0)
      else (do rest ← collect_lens n env ring (closed + 1); pure (desc_len st ∷ rest))

-- `status` after `axidma_wait_packets`, and the recovery.
unfoldable pub stream_status : ℕ → Env → OjlsHdr → ℤ → M ℕ
stream_status fuel env req (pos zero) = pure st_ok
stream_status fuel env req (negsuc (suc zero)) = do
  hw_recover fuel env req.width req.height
  pure st_hw_timeout
stream_status fuel env req rc = do hw_recover fuel env req.width req.height; pure st_hw_error

-- From the end of the wait on: the images that closed are reported, also after a failure.
unfoldable pub stream_reply : ℕ → Env → Hw → OjlsHdr → ℕ → ℕ → AxidmaRing → ℤ → M ℤ
stream_reply fuel env hw req count slot ring rc = do
  _ ← now_us env
  status ← stream_status fuel env req rc
  or_return (udmabuf_sync_for_cpu env hw.desc_buf.buf 0 (u32 (count * desc_size))) hw_error (
      or_return (udmabuf_sync_for_cpu env hw.rx.b.buf hw.rx.off (u32 (slot * count))) hw_error (do
        lens ← collect_lens count env ring 0
        or_return (stream_send fuel env req status (region_bytes env hw.rx) slot lens count)
            (negsuc 0) (pure (pos 0))))

-- From the allocation of `lens` on.
unfoldable pub stream_run : ℕ → Env → Hw → OjlsHdr → ℕ → ℕ → ℕ → AxidmaRing → AxidmaRing → M ℤ
stream_run fuel env hw req count slot timeout_ms out_ring in_ring = do
  memory ← sys_alloc env (count * 4)
  if not memory then pure hw_error else (do
    _ ← now_us env
    or_return (axidma_sg_start s2mm out_ring) hw_error (
        or_return (axidma_sg_start mm2s in_ring) hw_error (do
          rc ← axidma_wait_packets fuel env hw.irq_ok out_ring timeout_ms
          stream_reply fuel env hw req count slot out_ring rc)))

-- `ready_pct` 0 means 100.
abbrev pub ready_level : OjlsHdr → ℕ
ready_level req = if req.ready_pct != 0 then req.ready_pct else 100

unfoldable pub stream_and_reply : ℕ → Env → Hw → OjlsHdr → ℕ → ℕ → M ℤ
stream_and_reply fuel env hw req count timeout_ms =
    let image_bytes = req.payload_len / count in
    let slot = stream_slot_bytes image_bytes in
    let desc_half = hw.desc_buf.size / 2 in
    or_return (hw_configure fuel env req.width req.height) hw_error (
      or_return (gate_set env (ready_level req)) hw_error (
        or_return (udmabuf_sync_for_device env hw.tx.b.buf hw.tx.off req.payload_len) hw_error (
          or_return (axidma_reset fuel env) hw_error (
            with_ring
              (axidma_ring_build hw.desc_buf 0 desc_half (region_phys hw.rx) (u64 (slot * count))
                slot false)
              λ out_ring.
                with_ring
                  (axidma_ring_build hw.desc_buf desc_half (hw.desc_buf.size - desc_half)
                    (region_phys hw.tx) req.payload_len desc_chunk true)
                  λ in_ring.
                    or_return (udmabuf_sync_for_device env hw.desc_buf.buf 0 hw.desc_buf.size)
                      hw_error
                      (stream_run fuel env hw req count slot timeout_ms out_ring in_ring)))))
