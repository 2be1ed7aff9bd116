-- ===== src/Client/Request.antt =====
-- The requests of the client against the checks of the server.
use open_jls_demos.Prelude.{
  ℕ, inl, inr, ◌≡◌, refl, ◌∙◌, Bool, true, List, some, length, ltb, Bool-cases, arith,
}
use open_jls_demos.Proto.{IsHdr, st_ok, ojls_bytes_per_pixel}
use open_jls_demos.Server.{Hw}
use open_jls_demos.Server.Request.{expected_bytes, request_status}
use open_jls_demos.Server.Request.Accept.{IsWellFormed, loopback_accepted_iff}
use open_jls_demos.Client.{Image, encode_req}
use open_jls_demos.Client.Pgm.{pgm_load}
use open_jls_demos.Client.Pgm.Load.{IsImage, pgm_load-IsImage}

encode_req-IsHdr : (img : Image) → IsImage img → IsHdr (encode_req img)
encode_req-IsHdr img i = record {
  magic_u32 = omega arith;
  version_u16 = omega arith;
  type_u8 = omega arith;
  status_u8 = omega arith;
  width_u16 = omega (arith, i.width.1);
  height_u16 = omega (arith, i.height.1);
  bitness_u8 = omega (arith, i.bitness.1);
  ready_pct_u8 = omega arith;
  payload_len_u32 = omega (arith, i.bytes);
}

-- Client and server reckon the size of an image alike.
encode_req-size : (img : Image) → IsImage img → img.bytes ≡ expected_bytes (encode_req img)
unfolding expected_bytes ojls_bytes_per_pixel
encode_req-size img i = i.bytes ∙ elim (Bool-cases (ltb 8 img.bitness)) [
  | inl wide ↦ rw wide (omega arith)
  | inr narrow ↦ rw narrow (omega arith)
]

encode_req-IsWellFormed : (img : Image) → IsImage img → IsWellFormed (encode_req img)
encode_req-IsWellFormed img i = record {
  version = refl;
  kind = inl refl;
  ready = λ e. absurd (omega arith);
  bitness = i.bitness;
  one_image = λ _. encode_req-size img i;
  images = λ e. absurd (omega arith);
}

-- Whatever file `pgm_load` accepts, the header that the client makes for the image passes the
-- checks of a server in loopback mode, every field is in the range of its C type, and the client
-- has exactly the bytes that the header announces.
pub client_request_accepted :
    (hw : Hw) (memory : ℕ → Bool) (file : List ℕ) (img : Image)
    → pgm_load memory file ≡ some img
    → (request_status true hw (encode_req img) ≡ st_ok)
      × IsHdr (encode_req img)
      × (length img.pixels ≡ (encode_req img).payload_len)
client_request_accepted hw memory file img e =
    let i = pgm_load-IsImage memory file img e in
    (
      (loopback_accepted_iff hw (encode_req img)).1 (encode_req-IsWellFormed img i),
      encode_req-IsHdr img i,
      i.pixels,
    )
