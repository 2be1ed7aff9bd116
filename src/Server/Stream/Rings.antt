-- ===== src/Server/Stream/Rings.antt =====
-- The rings of a stream that the checks let through.
use open_jls_demos.Prelude.{
  ℕ, ◌+◌, ◌*◌, ◌/◌, ◌%◌, ◌^◌, ◌≤◌, ◌<◌, ◌≡◌, ◌≢◌, ◌++◌, false, some, pos, arith, u64, All,
}
use native.Mathlib.Nat.{zero-add, mul_comm, mul-pos, div-le_self}
use open_jls_demos.World.{Trace}
use open_jls_demos.AxiDma.{AxidmaRing}
use open_jls_demos.AxiDma.Ring.{ring_chunks, axidma_ring_build}
use open_jls_demos.AxiDma.Ring.Store.{InRegion, built_ring, ring_build_fits}
use open_jls_demos.Proto.{OjlsHdr, IsHdr, msg_stream_req, st_ok}
use open_jls_demos.Server.{Hw, region_phys}
use open_jls_demos.Server.Request.{image_count, request_status, stream_slot_bytes}
use open_jls_demos.Server.Request.Accept.{request_accepted_iff}
use open_jls_demos.Server.Request.Slot.{stream_slot_bounds, ring_chunks_slots}
use open_jls_demos.Server.Request.Sizes.{image_count_exact}

abbrev pub stream_slot : OjlsHdr → ℕ
stream_slot req = stream_slot_bytes (req.payload_len / image_count req)

-- For a stream that the checks let through, on a board whose buffers end below 4 GiB and whose
-- descriptor buffer is aligned, the S2MM ring that `stream_and_reply` asks for is built: it has
-- exactly one descriptor for each image of the request, and all that is done is to store
-- descriptors in the lower half of the descriptor buffer.
pub stream_ring_built :
    (hw : Hw) (req : OjlsHdr) (t : Trace)
    → IsHdr req
    → request_status false hw req ≡ st_ok
    → req.type ≡ msg_stream_req
    → hw.rx.size + 8192 ≤ 2 ^ 32
    → hw.desc_buf.size < 2 ^ 32
    → u64 (hw.desc_buf.phys + 0) % 64 ≡ 0
    → (new : Trace) × (ring : AxidmaRing) × (axidma_ring_build hw.desc_buf 0
          (hw.desc_buf.size / 2)
          (region_phys hw.rx)
          (u64 (stream_slot req * image_count req))
          (stream_slot req)
          false
          t
        ≡ some ((pos 0, some ring), new ++ t))
      × (ring.count ≡ image_count req)
      × All (InRegion 0 (hw.desc_buf.size / 2)) new
stream_ring_built hw req t r a s rx d al =
    let (w, f) = (request_accepted_iff hw req r).0 a in
    let (whole, one) = image_count_exact req w in
    let image : ℕ = req.payload_len / image_count req in
    let fits : image + image / 4 + 8192 ≤ 2 ^ 32 =
      omega (arith, f.in_rx, div-le_self req.payload_len (image_count req)) in
    let (paged, holds, short) = stream_slot_bounds image fits in
    let total : u64 (stream_slot req * image_count req) ≡ image_count req * stream_slot req =
      rw (mul_comm (stream_slot req) (image_count req)) (omega (arith, f.slots s)) in
    let chunks : ring_chunks (u64 (stream_slot req * image_count req)) (stream_slot req)
        ≡ image_count req =
      rw total (
        ring_chunks_slots (stream_slot req) (image_count req) (omega arith) one
          (omega (arith, f.slots s))) in
    let filled : u64 (stream_slot req * image_count req) ≢ 0 =
      rw total
        (omega (arith, mul-pos {m = image_count req} {n = stream_slot req} one (omega arith))) in
    let (new, built, inside) =
      ring_build_fits hw.desc_buf 0 (hw.desc_buf.size / 2) (region_phys hw.rx) _ (stream_slot req)
        false t filled (omega arith) al (rw chunks (f.descs s)) (omega arith) in
    (
      new,
      built_ring hw.desc_buf 0 (hw.desc_buf.size / 2) (region_phys hw.rx) _ (stream_slot req) false
          t,
      built,
      chunks,
      rw zero-add at inside,
    )
