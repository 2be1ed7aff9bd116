-- ===== src/Server/Request/Sizes.antt =====
-- The payload of a request against its dimensions.
use open_jls_demos.Prelude.{ℕ, zero, suc, ◌+◌, ◌*◌, ◌/◌, ◌%◌, ◌^◌, ◌≤◌, ◌<◌, ◌≡◌, true, arith}
use native.Mathlib.Nat.{div-add-mod'}
use open_jls_demos.Proto.{OjlsHdr, msg_encode_req, proto_version, ojls_bytes_per_pixel, st_ok}
use open_jls_demos.Server.{Hw}
use open_jls_demos.Server.Request.{
  expected_bytes, image_count, request_status, header_status, size_status,
}
use open_jls_demos.Server.Request.Accept.{IsWellFormed}

-- The bytes of one image, without wrap-around.
abbrev pub image_bytes : OjlsHdr → ℕ
image_bytes req = req.width * req.height * ojls_bytes_per_pixel req.bitness

expected_exact : (req : OjlsHdr) → image_bytes req < 2 ^ 32 → expected_bytes req ≡ image_bytes req
unfolding expected_bytes
expected_exact req h = ground arith

quotient_exact : (p e : ℕ) → 1 ≤ p → p % e ≡ 0 → (p ≡ p / e * e) × (1 ≤ p / e)
quotient_exact p e one z = go (p / e) (div-add-mod' p e)
  where
    go : (q : ℕ) → q * e + p % e ≡ p → (p ≡ q * e) × (1 ≤ q)
    go zero h = absurd (omega arith)
    go (suc q) h = omega arith

pub image_count_exact :
    (req : OjlsHdr)
    → IsWellFormed req
    → (req.payload_len ≡ image_count req * expected_bytes req) × (1 ≤ image_count req)
unfolding image_count
image_count_exact req w = ground (arith, quotient_exact req.payload_len (expected_bytes req))

-- A well-formed request whose image is below 4 GiB carries exactly the bytes of its images: one
-- image for an encode request, and for a stream the whole number that the server counts, at least
-- one.
pub payload_exact :
    (req : OjlsHdr)
    → IsWellFormed req
    → image_bytes req < 2 ^ 32
    → (req.payload_len ≡ image_count req * image_bytes req) × (1 ≤ image_count req)
payload_exact req w h = rw (← expected_exact req h) (image_count_exact req w)

-- For an encode request whose image is 4 GiB or more, the product wraps: a payload that is exactly
-- 4 GiB short of the image is taken for a complete one.
pub size_check_wraps :
    (hw : Hw) (req : OjlsHdr)
    → req.version ≡ proto_version
    → req.type ≡ msg_encode_req
    → 8 < req.bitness
    → req.bitness ≤ 16
    → req.width * req.height < 2 ^ 32
    → 2 ^ 32 ≤ image_bytes req
    → req.payload_len + 2 ^ 32 ≡ image_bytes req
    → request_status true hw req ≡ st_ok
unfolding request_status header_status size_status expected_bytes ojls_bytes_per_pixel
size_check_wraps hw req v t lo hi a b e = ground arith
