-- ===== src/Server/Request.antt =====
-- Software/src/ojls_server.c: the checks of `serve_connection` on a request header.
pub mod Slot
pub mod Accept
pub mod Sizes
use open_jls_demos.Prelude.{
  ℕ, ◌+◌, ◌*◌, ◌/◌, ◌%◌, ◌-◌, Bool, ◌||◌, ◌&&◌, u32, u64, ltb, ◌==◌, ◌!=◌, if◌then◌else◌,
}
use open_jls_demos.Uio.{min_width, min_height}
use open_jls_demos.AxiDma.{desc_size}
use open_jls_demos.Proto.{
  OjlsHdr, proto_version, msg_encode_req, msg_stream_req, st_ok, st_bad_version, st_bad_type,
  st_bad_dims, st_bad_bitness, st_size_mismatch, st_too_large, st_bad_ready, ojls_bytes_per_pixel,
}
use open_jls_demos.Server.{Hw}

-- `(size_t)((worst + 4095) & ~(uint64_t)4095)`, with a 32-bit `size_t`
unfoldable pub stream_slot_bytes : ℕ → ℕ
stream_slot_bytes image_bytes =
    let worst = u64 (u64 (image_bytes + image_bytes / 4) + 4096) in
    let up = u64 (worst + 4095) in u32 (up - up % 4096)

abbrev pub is_stream : OjlsHdr → Bool
is_stream req = req.type == msg_stream_req

-- `(uint32_t)req.width * req.height * ojls_bytes_per_pixel(req.bitness)`
unfoldable pub expected_bytes : OjlsHdr → ℕ
unfolding ojls_bytes_per_pixel
expected_bytes req = u32 (u32 (req.width * req.height) * ojls_bytes_per_pixel req.bitness)

-- Version, type and ready level.
unfoldable pub header_status : OjlsHdr → ℕ
header_status req =
    if req.version != proto_version
    then st_bad_version
    else if req.type != msg_encode_req && req.type != msg_stream_req
    then st_bad_type
    else if is_stream req && ltb 100 req.ready_pct
    then st_bad_ready
    else st_ok

-- The condition of `OJLS_ST_SIZE_MISMATCH`.
abbrev pub size_mismatch : OjlsHdr → ℕ → Bool
size_mismatch req expect =
    if is_stream req
    then expect == 0 || req.payload_len == 0 || req.payload_len % expect != 0
    else req.payload_len != expect

-- Bitness and size.
unfoldable pub size_status : OjlsHdr → ℕ
size_status req =
    if ltb req.bitness 8 || ltb 16 req.bitness
    then st_bad_bitness
    else if size_mismatch req (expected_bytes req)
    then st_size_mismatch
    else st_ok

-- The images of a request that these checks let through.
unfoldable pub image_count : OjlsHdr → ℕ
image_count req = if is_stream req then req.payload_len / expected_bytes req else 1

-- The limits of the hardware and of its buffers.
unfoldable pub hw_status : Hw → OjlsHdr → ℕ
unfolding stream_slot_bytes
hw_status hw req =
    if req.bitness != hw.bitness
    then st_bad_bitness
    else if ltb req.width min_width
        || ltb hw.max_width req.width
        || ltb req.height min_height
        || ltb hw.max_height req.height
    then st_bad_dims
    else if ltb hw.tx.size req.payload_len
        || ltb hw.rx.size (u64 (u64 (req.payload_len + req.payload_len / 4) + 4096))
    then st_too_large
    else if is_stream req
        && (ltb hw.rx.size
              (u64 (image_count req * stream_slot_bytes (req.payload_len / image_count req)))
            || ltb (hw.desc_buf.size / 2) (u64 (image_count req * desc_size)))
    then st_too_large
    else st_ok

-- `st` before the request is served; the flag is `opt->loopback`.
unfoldable pub request_status : Bool → Hw → OjlsHdr → ℕ
request_status loopback hw req =
    if header_status req != st_ok
    then header_status req
    else if size_status req != st_ok
    then size_status req
    else if loopback
    then st_ok
    else hw_status hw req
