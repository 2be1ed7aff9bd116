-- ===== src/Proto/RoundTrip.antt =====
-- Packing and unpacking of the header, and of the words on the wire.
use open_jls_demos.Prelude.{
  ℕ, zero, suc, ◌≡◌, List, [], ◌∷◌, ◌++◌, length, get_or, drop, All, IsU8, IsU16, IsU32, arith,
}
use open_jls_demos.Proto.{
  OjlsHdr, IsHdr, ojls_put_u16, ojls_put_u32, ojls_get_u16, ojls_get_u32, ojls_hdr_pack,
  ojls_hdr_unpack, proto_hdr_len,
}

pub get_u32-put_u32 : (v : ℕ) (rest : List ℕ) → IsU32 v → ojls_get_u32 (ojls_put_u32 v ++ rest) ≡ v
unfolding ojls_get_u32 ojls_put_u32
get_u32-put_u32 v rest h = omega arith

pub length-put_u32 : (v : ℕ) → length (ojls_put_u32 v) ≡ 4
unfolding ojls_put_u32
length-put_u32 v = omega arith

-- Unpacking what was packed gives back every header whose fields are in the ranges of their C
-- types, whatever bytes follow it.
pub unpack-pack :
    (h : OjlsHdr) (rest : List ℕ) → IsHdr h → ojls_hdr_unpack (ojls_hdr_pack h ++ rest) ≡ h
unfolding ojls_hdr_unpack ojls_hdr_pack
unpack-pack h rest w = ground arith

-- Packing what was unpacked from any 20 bytes gives back these bytes, with the two reserved ones at
-- offsets 14 and 15 set to zero.
pub pack-unpack :
    (b0 b1 b2 b3 b4 b5 b6 b7 b8 b9 b10 b11 b12 b13 b14 b15 b16 b17 b18 b19 : ℕ)
    → All IsU8 (
        b0 ∷ b1 ∷ b2 ∷ b3 ∷ b4 ∷ b5 ∷ b6 ∷ b7 ∷ b8 ∷ b9 ∷ b10 ∷ b11 ∷ b12 ∷ b13 ∷ b14 ∷ b15 ∷ b16
        ∷ b17 ∷ b18 ∷ b19 ∷ [])
    → ojls_hdr_pack (
        ojls_hdr_unpack (
          b0 ∷ b1 ∷ b2 ∷ b3 ∷ b4 ∷ b5 ∷ b6 ∷ b7 ∷ b8 ∷ b9 ∷ b10 ∷ b11 ∷ b12 ∷ b13 ∷ b14 ∷ b15 ∷ b16
          ∷ b17 ∷ b18 ∷ b19 ∷ []))
      ≡ b0 ∷ b1 ∷ b2 ∷ b3 ∷ b4 ∷ b5 ∷ b6 ∷ b7 ∷ b8 ∷ b9 ∷ b10 ∷ b11 ∷ b12 ∷ b13 ∷ 0 ∷ 0 ∷ b16 ∷ b17
        ∷ b18 ∷ b19 ∷ []
unfolding ojls_hdr_unpack ojls_hdr_pack ojls_put_u16 ojls_put_u32 ojls_get_u16 ojls_get_u32
pack-unpack b0 b1 b2 b3 b4 b5 b6 b7 b8 b9 b10 b11 b12 b13 b14 b15 b16 b17 b18 b19 h = ground arith

pub length-pack : (h : OjlsHdr) → length (ojls_hdr_pack h) ≡ proto_hdr_len
unfolding ojls_hdr_pack
length-pack h = omega arith

-- The packed header of in-range fields is 20 bytes long, each element is a byte, and the two
-- reserved bytes at offsets 14 and 15 are zero.
pub pack_shape :
    (h : OjlsHdr)
    → IsHdr h
    → (length (ojls_hdr_pack h) ≡ proto_hdr_len)
      × All IsU8 (ojls_hdr_pack h)
      × (get_or (ojls_hdr_pack h) 14 1 ≡ 0)
      × (get_or (ojls_hdr_pack h) 15 1 ≡ 0)
unfolding ojls_hdr_pack
pack_shape h w = omega arith

get_or-IsU8 : (buf : List ℕ) (i : ℕ) → All IsU8 buf → IsU8 (get_or buf i 0)
get_or-IsU8 [] i a = omega arith
get_or-IsU8 (x ∷ xs) zero a = a.0
get_or-IsU8 (x ∷ xs) (suc i) a = get_or-IsU8 xs i a.1

drop-IsU8 : (n : ℕ) (buf : List ℕ) → All IsU8 buf → All IsU8 (drop n buf)
drop-IsU8 zero buf a = a
drop-IsU8 (suc n) [] a = a
drop-IsU8 (suc n) (x ∷ xs) a = drop-IsU8 n xs a.1

get_word-IsU32 : (buf : List ℕ) → All IsU8 buf → IsU32 (ojls_get_u32 buf)
unfolding ojls_get_u32
get_word-IsU32 buf a =
    omega
      (arith, get_or-IsU8 buf 0 a, get_or-IsU8 buf 1 a, get_or-IsU8 buf 2 a, get_or-IsU8 buf 3 a)

get_half-IsU16 : (buf : List ℕ) → IsU16 (ojls_get_u16 buf)
unfolding ojls_get_u16
get_half-IsU16 buf = omega arith

-- Whatever bytes arrive, every field of the unpacked header is in the range of its C type.
pub unpack-IsHdr : (buf : List ℕ) → All IsU8 buf → IsHdr (ojls_hdr_unpack buf)
unfolding ojls_hdr_unpack
unpack-IsHdr buf a = record {
  magic_u32 = get_word-IsU32 buf a;
  version_u16 = get_half-IsU16 (drop 4 buf);
  type_u8 = get_or-IsU8 buf 6 a;
  status_u8 = get_or-IsU8 buf 7 a;
  width_u16 = get_half-IsU16 (drop 8 buf);
  height_u16 = get_half-IsU16 (drop 10 buf);
  bitness_u8 = get_or-IsU8 buf 12 a;
  ready_pct_u8 = get_or-IsU8 buf 13 a;
  payload_len_u32 = get_word-IsU32 (drop 16 buf) (drop-IsU8 16 buf a);
}
