-- ===== src/Examples/Serving.antt =====
-- The server's checks and replies.
use open_jls_demos.Prelude.{
  ◌+◌, ◌*◌, ◌/◌, ◌%◌, ◌≤◌, ◌<◌, ◌≡◌, ◌↔◌, refl, true, false, [], ◌++◌, some, All, pos, u64, arith,
}
use open_jls_demos.World.{Trace}
use open_jls_demos.World.Returns.{Returns}
use open_jls_demos.AxiDma.{AxidmaRing}
use open_jls_demos.AxiDma.Ring.{axidma_ring_build}
use open_jls_demos.AxiDma.Ring.Store.{InRegion}
use open_jls_demos.Proto.{OjlsHdr, IsHdr, st_ok, ojls_bytes_per_pixel}
use open_jls_demos.Server.{region_phys}
use open_jls_demos.Server.Request.{
  request_status, header_status, size_status, hw_status, expected_bytes, image_count,
  stream_slot_bytes,
}
use open_jls_demos.Server.Request.Accept.{
  IsWellFormed, Fits, request_accepted_iff, loopback_accepted_iff,
}
use open_jls_demos.Server.Request.Sizes.{image_bytes, payload_exact, size_check_wraps}
use open_jls_demos.Server.Request.Slot.{stream_slot_bounds}
use open_jls_demos.Server.Stream.Rings.{stream_slot, stream_ring_built}
use open_jls_demos.Server.Encode.{encode_and_reply}
use open_jls_demos.Server.Encode.Answer.{IsEncodeReply, encode_and_reply_total}
use open_jls_demos.Server.Replies.{Reply}
use open_jls_demos.Examples.Board.{board, board-Lawful, small_hw}
use open_jls_demos.Examples.Wire.{small_hdr, small_hdr-IsHdr}

-- Three such images in a stream.
abbrev pub three_hdr : OjlsHdr
three_hdr = record small_hdr { type = 3; payload_len = 24 }

three_hdr-IsHdr : IsHdr three_hdr
three_hdr-IsHdr = omega arith

small_accepted : request_status false small_hw small_hdr ≡ st_ok
unfolding request_status header_status size_status hw_status expected_bytes
small_accepted = refl

three_accepted : request_status false small_hw three_hdr ≡ st_ok
unfolding request_status header_status size_status hw_status expected_bytes image_count
three_accepted = refl

request_accepted_iff_example :
    (request_status false small_hw small_hdr ≡ st_ok)
    ↔ (IsWellFormed small_hdr × Fits small_hw small_hdr)
request_accepted_iff_example = request_accepted_iff small_hw small_hdr small_hdr-IsHdr

loopback_accepted_iff_example :
    (request_status true small_hw small_hdr ≡ st_ok) ↔ IsWellFormed small_hdr
loopback_accepted_iff_example = loopback_accepted_iff small_hw small_hdr

three-IsWellFormed : IsWellFormed three_hdr
three-IsWellFormed = ((request_accepted_iff small_hw three_hdr three_hdr-IsHdr).0 three_accepted).0

payload_exact_example :
    (24 ≡ image_count three_hdr * image_bytes three_hdr) × (1 ≤ image_count three_hdr)
unfolding ojls_bytes_per_pixel
payload_exact_example = payload_exact three_hdr three-IsWellFormed (omega arith)

-- 46341 x 46341 pixels of 16 bits are 4294976562 bytes.
abbrev huge_hdr : OjlsHdr
huge_hdr = record small_hdr { width = 46341; height = 46341; bitness = 16; payload_len = 9266 }

size_check_wraps_example : request_status true small_hw huge_hdr ≡ st_ok
unfolding ojls_bytes_per_pixel
size_check_wraps_example =
    size_check_wraps small_hw huge_hdr refl refl (omega arith) (omega arith) (omega arith)
      (omega arith) (omega arith)

stream_slot_bounds_example :
    (stream_slot_bytes 10000 % 4096 ≡ 0)
    × (10000 + 10000 / 4 + 4096 ≤ stream_slot_bytes 10000)
    × (stream_slot_bytes 10000 < 10000 + 10000 / 4 + 8192)
stream_slot_bounds_example = stream_slot_bounds 10000 (omega arith)

stream_ring_built_example :
    (new : Trace) × (ring : AxidmaRing) × (axidma_ring_build small_hw.desc_buf 0
        (small_hw.desc_buf.size / 2)
        (region_phys small_hw.rx)
        (u64 (stream_slot three_hdr * image_count three_hdr))
        (stream_slot three_hdr)
        false
        []
      ≡ some ((pos 0, some ring), new ++ []))
    × (ring.count ≡ image_count three_hdr)
    × All (InRegion 0 (small_hw.desc_buf.size / 2)) new
stream_ring_built_example =
    stream_ring_built small_hw three_hdr [] three_hdr-IsHdr three_accepted refl (omega arith)
      (omega arith) (omega arith)

encode_and_reply_total_example :
    Returns
      (encode_and_reply 20_000_000_000 (board []) small_hw small_hdr 10_000 [])
      (Reply [] [] (IsEncodeReply small_hdr))
encode_and_reply_total_example =
    encode_and_reply_total small_hw small_hdr 10_000 20_000_000_000 [] (board-Lawful [])
      (omega arith)
