-- ===== src/Server/Encode.antt =====
-- Software/src/ojls_server.c: `send_error` and `encode_and_reply`.
pub mod Answer
use open_jls_demos.Prelude.{ℕ, ◌-◌, ◌/◌, true, false, Option, some, ℤ, pos, negsuc, suc, zero}
use open_jls_demos.World.{Env, M, pure, ◌>>=◌, ◌>>◌}
use open_jls_demos.Uio.{now_us}
use open_jls_demos.Udmabuf.{udmabuf_sync_for_device, udmabuf_sync_for_cpu}
use open_jls_demos.AxiDma.{AxidmaRing, axidma_reset, axidma_sg_start, s2mm, mm2s, desc_chunk}
use open_jls_demos.AxiDma.Ring.{axidma_ring_build}
use open_jls_demos.AxiDma.Wait.{axidma_wait, axidma_ring_bytes}
use open_jls_demos.Proto.{
  OjlsHdr, proto_magic, proto_version, msg_encode_resp, st_ok, st_hw_error, st_hw_timeout,
  ojls_hdr_pack,
}
use open_jls_demos.Server.{
  Hw, region_phys, region_bytes, or_return, hw_configure, gate_set, hw_recover,
}
use open_jls_demos.Server.Io.{send_full}

-- The header of an error reply.
abbrev pub error_hdr : OjlsHdr → ℕ → OjlsHdr
error_hdr req status = record req {
  magic = proto_magic;
  version = proto_version;
  type = msg_encode_resp;
  status = status;
  payload_len = 0;
}

unfoldable pub send_error : ℕ → Env → OjlsHdr → ℕ → M ℤ
send_error fuel env req status = send_full fuel env (ojls_hdr_pack (error_hdr req status))

abbrev pub hw_error : ℤ
hw_error = pos st_hw_error

-- `if (axidma_ring_build(&ring, …) != 0) return OJLS_ST_HW_ERROR;`
unfoldable pub built_or_return : ℤ × Option AxidmaRing → (AxidmaRing → M ℤ) → M ℤ
built_or_return (pos zero, some ring) k = k ring
built_or_return (rc, r) k = pure hw_error

abbrev pub with_ring : M (ℤ × Option AxidmaRing) → (AxidmaRing → M ℤ) → M ℤ
with_ring m k = m >>= λ r. built_or_return r k

-- The header of a reply with `out_bytes` bytes of bitstream.
abbrev pub encode_hdr : OjlsHdr → ℕ → OjlsHdr
encode_hdr req out_bytes = record {
  magic = proto_magic;
  version = proto_version;
  type = msg_encode_resp;
  status = st_ok;
  width = req.width;
  height = req.height;
  bitness = req.bitness;
  ready_pct = 0;
  payload_len = out_bytes;
}

-- From the successful wait on.
unfoldable pub encode_reply : ℕ → Env → Hw → OjlsHdr → AxidmaRing → M ℤ
encode_reply fuel env hw req ring = do
  _ ← now_us env
  out_bytes ← axidma_ring_bytes env ring
  or_return (udmabuf_sync_for_cpu env hw.rx.b.buf hw.rx.off out_bytes) hw_error (
      or_return (send_full fuel env (ojls_hdr_pack (encode_hdr req out_bytes))) (negsuc 0) (do
        bytes ← region_bytes env hw.rx 0 out_bytes
        or_return (send_full fuel env bytes) (negsuc 0) (pure (pos 0))))

-- What follows `axidma_wait`, by its code.
unfoldable pub after_wait : ℕ → Env → Hw → OjlsHdr → AxidmaRing → ℤ → M ℤ
after_wait fuel env hw req ring (pos zero) = encode_reply fuel env hw req ring
after_wait fuel env hw req ring (negsuc (suc zero)) = do
  hw_recover fuel env req.width req.height
  pure (pos st_hw_timeout)
after_wait fuel env hw req ring rc = do hw_recover fuel env req.width req.height; pure hw_error

-- From the start of the engine on.
unfoldable pub encode_run : ℕ → Env → Hw → OjlsHdr → ℕ → AxidmaRing → AxidmaRing → M ℤ
encode_run fuel env hw req timeout_ms out_ring in_ring = do
  _ ← now_us env
  or_return (axidma_sg_start s2mm out_ring) hw_error (
      or_return (axidma_sg_start mm2s in_ring) hw_error (do
        rc ← axidma_wait fuel env hw.irq_ok s2mm out_ring timeout_ms
        after_wait fuel env hw req out_ring rc))

unfoldable pub encode_and_reply : ℕ → Env → Hw → OjlsHdr → ℕ → M ℤ
encode_and_reply fuel env hw req timeout_ms =
    let in_bytes = req.payload_len in
    let desc_half = hw.desc_buf.size / 2 in
    or_return (hw_configure fuel env req.width req.height) hw_error (
      or_return (gate_set env 100) hw_error (
        or_return (udmabuf_sync_for_device env hw.tx.b.buf hw.tx.off in_bytes) hw_error (
          or_return (axidma_reset fuel env) hw_error (
            with_ring
              (axidma_ring_build hw.desc_buf 0 desc_half (region_phys hw.rx) hw.rx.size desc_chunk
                false)
              λ out_ring.
                with_ring
                  (axidma_ring_build hw.desc_buf desc_half (hw.desc_buf.size - desc_half)
                    (region_phys hw.tx) in_bytes desc_chunk true)
                  λ in_ring.
                    or_return (udmabuf_sync_for_device env hw.desc_buf.buf 0 hw.desc_buf.size)
                      hw_error (encode_run fuel env hw req timeout_ms out_ring in_ring)))))
