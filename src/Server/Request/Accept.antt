-- ===== src/Server/Request/Accept.antt =====
-- What the checks of `serve_connection` establish.
use open_jls_demos.Prelude.{
  ℕ, ◌+◌, ◌-◌, ◌*◌, ◌/◌, ◌%◌, ◌^◌, ◌≤◌, ◌<◌, ◌≡◌, ◌⊎◌, ◌↔◌, true, false, arith, IsU32,
}
use native.Mathlib.Nat.{mul-le-mul, div-le_self}
use open_jls_demos.Uio.{min_width, min_height}
use open_jls_demos.AxiDma.{desc_size}
use open_jls_demos.Proto.{OjlsHdr, IsHdr, proto_version, msg_encode_req, msg_stream_req, st_ok}
use open_jls_demos.Server.{Hw}
use open_jls_demos.Server.Request.{
  stream_slot_bytes, expected_bytes, header_status, size_status, image_count, hw_status,
  request_status,
}

-- What a well-formed request says, whatever the hardware.
pub record IsWellFormed (req : OjlsHdr) : Type 0 where
  pub version : req.version ≡ proto_version
  pub kind : (req.type ≡ msg_encode_req) ⊎ (req.type ≡ msg_stream_req)
  pub ready : req.type ≡ msg_stream_req → req.ready_pct ≤ 100
  pub bitness : (8 ≤ req.bitness) × (req.bitness ≤ 16)
  pub one_image : req.type ≡ msg_encode_req → req.payload_len ≡ expected_bytes req
  pub images :
      req.type ≡ msg_stream_req
      → (1 ≤ expected_bytes req)
        × (1 ≤ req.payload_len)
        × (req.payload_len % expected_bytes req ≡ 0)

-- What the hardware and its buffers ask of it.
pub record Fits (hw : Hw) (req : OjlsHdr) : Type 0 where
  pub bitness : req.bitness ≡ hw.bitness
  pub width : (min_width ≤ req.width) × (req.width ≤ hw.max_width)
  pub height : (min_height ≤ req.height) × (req.height ≤ hw.max_height)
  pub in_tx : req.payload_len ≤ hw.tx.size
  pub in_rx : req.payload_len + req.payload_len / 4 + 4096 ≤ hw.rx.size
  pub slots :
      req.type ≡ msg_stream_req
      → image_count req * stream_slot_bytes (req.payload_len / image_count req) ≤ hw.rx.size
  pub descs : req.type ≡ msg_stream_req → image_count req * desc_size ≤ hw.desc_buf.size / 2

header-IsWellFormed :
    (req : OjlsHdr) → header_status req ≡ st_ok → size_status req ≡ st_ok → IsWellFormed req
unfolding header_status size_status
header-IsWellFormed req a b = record {
  version = ground arith;
  kind = ground arith;
  ready = ground arith;
  bitness = ground arith;
  one_image = ground arith;
  images = ground arith;
}

IsWellFormed-header : (req : OjlsHdr) → IsWellFormed req → header_status req ≡ st_ok
unfolding header_status
IsWellFormed-header req w = ground arith

IsWellFormed-size : (req : OjlsHdr) → IsWellFormed req → size_status req ≡ st_ok
unfolding size_status
IsWellFormed-size req w = ground arith

module _ (hw : Hw) (req : OjlsHdr) (payload_u32 : IsU32 req.payload_len) where
  hw-Fits :
      image_count req * stream_slot_bytes (req.payload_len / image_count req) < 2 ^ 64
      → image_count req * desc_size < 2 ^ 64
      → hw_status hw req ≡ st_ok
      → Fits hw req
  unfolding hw_status
  hw-Fits small few a = record {
    bitness = ground arith;
    width = ground arith;
    height = ground arith;
    in_tx = ground arith;
    in_rx = ground arith;
    slots = ground arith;
    descs = ground arith;
  }

  Fits-hw :
      image_count req * stream_slot_bytes (req.payload_len / image_count req) < 2 ^ 64
      → image_count req * desc_size < 2 ^ 64
      → Fits hw req
      → hw_status hw req ≡ st_ok
  unfolding hw_status
  Fits-hw small few f = ground arith

mul_bound : (a b : ℕ) → a < 2 ^ 32 → b < 2 ^ 32 → a * b < 2 ^ 64
mul_bound a b h g = omega (
  arith,
  mul-le-mul {n₁ = a} {m₁ = b} {n₂ = 2 ^ 32 - 1} {m₂ = 2 ^ 32 - 1} (omega arith) (omega arith),
)

pub image_count-lt : (req : OjlsHdr) → IsU32 req.payload_len → image_count req < 2 ^ 32
unfolding image_count
image_count-lt req h = ground (arith, div-le_self req.payload_len (expected_bytes req))

pub slot-lt : (b : ℕ) → stream_slot_bytes b < 2 ^ 32
unfolding stream_slot_bytes
slot-lt b = omega arith

-- For a header with fields in range, the checks of `serve_connection` let a request through to the
-- hardware exactly if it is well formed and fits the hardware: version, type, ready level and
-- bitness; a payload of one image, or of a whole number of images for a stream; the core's bitness
-- and size limits; the tx buffer, the rx buffer with its headroom, the slots and the descriptors.
pub request_accepted_iff :
    (hw : Hw) (req : OjlsHdr)
    → IsHdr req
    → (request_status false hw req ≡ st_ok) ↔ (IsWellFormed req × Fits hw req)
unfolding request_status
request_accepted_iff hw req r =
    let n = image_count-lt req r.payload_len_u32 in
    let small = mul_bound (image_count req) _ n (slot-lt (req.payload_len / image_count req)) in
    let few : image_count req * desc_size < 2 ^ 64 = omega (arith, n) in
    (
      λ a.
          let w = header-IsWellFormed req (ground arith) (ground arith) in
          (w, hw-Fits hw req r.payload_len_u32 small few (ground arith)),
      λ (w, f).
          rw (IsWellFormed-header req w, IsWellFormed-size req w)
            (Fits-hw hw req r.payload_len_u32 small few f),
    )

-- In loopback mode a request passes the checks exactly if it is well formed.
pub loopback_accepted_iff :
    (hw : Hw) (req : OjlsHdr) → (request_status true hw req ≡ st_ok) ↔ IsWellFormed req
unfolding request_status
loopback_accepted_iff hw req = (
  λ a. header-IsWellFormed req (ground arith) (ground arith),
  λ w. rw (IsWellFormed-header req w, IsWellFormed-size req w),
)
