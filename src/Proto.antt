-- ===== src/Proto.antt =====
-- Software/common/ojls_proto.h: the wire protocol. A byte buffer is a list of numbers.
pub mod RoundTrip
use open_jls_demos.Prelude.{
  ℕ, ◌+◌, ◌*◌, ◌/◌, ◌%◌, ◌^◌, Bool, List, [], ◌∷◌, ◌++◌, get_or, drop, u8, u16, u32, ltb, ◌==◌,
  if◌then◌else◌, IsU8, IsU16, IsU32,
}

abbrev pub proto_magic : ℕ
proto_magic = 0x4F4A4C53

abbrev pub proto_version : ℕ
proto_version = 1

abbrev pub proto_hdr_len : ℕ
proto_hdr_len = 20

abbrev pub msg_encode_req : ℕ
msg_encode_req = 1

abbrev pub msg_encode_resp : ℕ
msg_encode_resp = 2

abbrev pub msg_stream_req : ℕ
msg_stream_req = 3

abbrev pub msg_stream_resp : ℕ
msg_stream_resp = 4

abbrev pub st_ok : ℕ
st_ok = 0

abbrev pub st_bad_magic : ℕ
st_bad_magic = 1

abbrev pub st_bad_version : ℕ
st_bad_version = 2

abbrev pub st_bad_type : ℕ
st_bad_type = 3

abbrev pub st_bad_dims : ℕ
st_bad_dims = 4

abbrev pub st_bad_bitness : ℕ
st_bad_bitness = 5

abbrev pub st_size_mismatch : ℕ
st_size_mismatch = 6

abbrev pub st_too_large : ℕ
st_too_large = 7

abbrev pub st_hw_error : ℕ
st_hw_error = 8

abbrev pub st_hw_timeout : ℕ
st_hw_timeout = 9

abbrev pub st_bad_ready : ℕ
st_bad_ready = 10

pub record OjlsHdr : Type 0 where
  pub magic : ℕ
  pub version : ℕ
  pub type : ℕ
  pub status : ℕ
  pub width : ℕ
  pub height : ℕ
  pub bitness : ℕ
  pub ready_pct : ℕ
  pub payload_len : ℕ

-- The ranges of the C fields.
pub record IsHdr (h : OjlsHdr) : Type 0 where
  pub magic_u32 : IsU32 h.magic
  pub version_u16 : IsU16 h.version
  pub type_u8 : IsU8 h.type
  pub status_u8 : IsU8 h.status
  pub width_u16 : IsU16 h.width
  pub height_u16 : IsU16 h.height
  pub bitness_u8 : IsU8 h.bitness
  pub ready_pct_u8 : IsU8 h.ready_pct
  pub payload_len_u32 : IsU32 h.payload_len

-- The bytes that a `put` stores at `p`, in order.
unfoldable pub ojls_put_u16 : ℕ → List ℕ
ojls_put_u16 v = u8 (v % 256) ∷ u8 (v / 2 ^ 8) ∷ []

unfoldable pub ojls_put_u32 : ℕ → List ℕ
ojls_put_u32 v = u8 (v % 256) ∷ u8 (v / 2 ^ 8 % 256) ∷ u8 (v / 2 ^ 16 % 256) ∷ u8 (v / 2 ^ 24) ∷ []

-- The bytes do not overlap, so `|` is `+`.
unfoldable pub ojls_get_u16 : List ℕ → ℕ
ojls_get_u16 p = u16 (get_or p 0 0 + get_or p 1 0 * 2 ^ 8)

unfoldable pub ojls_get_u32 : List ℕ → ℕ
ojls_get_u32 p = get_or p 0 0 + get_or p 1 0 * 2 ^ 8 + get_or p 2 0 * 2 ^ 16 + get_or p 3 0 * 2 ^ 24

unfoldable pub ojls_hdr_pack : OjlsHdr → List ℕ
unfolding ojls_put_u16 ojls_put_u32
ojls_hdr_pack h =
    ojls_put_u32 h.magic
    ++ ojls_put_u16 h.version
    ++ (h.type ∷ h.status ∷ [])
    ++ ojls_put_u16 h.width
    ++ ojls_put_u16 h.height
    ++ (h.bitness ∷ h.ready_pct ∷ 0 ∷ 0 ∷ [])
    ++ ojls_put_u32 h.payload_len

unfoldable pub ojls_hdr_unpack : List ℕ → OjlsHdr
unfolding ojls_get_u16 ojls_get_u32
ojls_hdr_unpack buf = record {
  magic = ojls_get_u32 buf;
  version = ojls_get_u16 (drop 4 buf);
  type = get_or buf 6 0;
  status = get_or buf 7 0;
  width = ojls_get_u16 (drop 8 buf);
  height = ojls_get_u16 (drop 10 buf);
  bitness = get_or buf 12 0;
  ready_pct = get_or buf 13 0;
  payload_len = ojls_get_u32 (drop 16 buf);
}

unfoldable pub ojls_bytes_per_pixel : ℕ → ℕ
ojls_bytes_per_pixel bitness = if ltb 8 bitness then 2 else 1
