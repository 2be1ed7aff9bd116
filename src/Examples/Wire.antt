-- ===== src/Examples/Wire.antt =====
-- The header and the socket loops.
use open_jls_demos.Prelude.{
  ℕ, ◌≡◌, refl, List, [], ◌∷◌, ◌++◌, some, length, All, get_or, IsU8, pos, arith,
}
use open_jls_demos.World.{sock_read, got}
use open_jls_demos.World.Returns.{Returns}
use open_jls_demos.Proto.{OjlsHdr, IsHdr, proto_hdr_len, ojls_hdr_pack, ojls_hdr_unpack}
use open_jls_demos.Proto.RoundTrip.{unpack-pack, pack-unpack, pack_shape}
use open_jls_demos.Server.Io.{recv_full, send_full, drain, recv_loop, on_read}
use open_jls_demos.World.System.{sys_read}
use open_jls_demos.Server.Io.Receive.{Received, recv_full_total}
use open_jls_demos.Server.Io.Send.{Sent, send_full_total}
use open_jls_demos.Server.Io.Drain.{Drained, drain_total}
use open_jls_demos.Examples.Board.{board, board-Lawful}

-- A 4 x 2 image at 8 bits.
abbrev pub small_hdr : OjlsHdr
small_hdr = record {
  magic = 0x4F4A4C53;
  version = 1;
  type = 1;
  status = 0;
  width = 4;
  height = 2;
  bitness = 8;
  ready_pct = 0;
  payload_len = 8;
}

pub small_hdr-IsHdr : IsHdr small_hdr
small_hdr-IsHdr = omega arith

abbrev small_raw : List ℕ
small_raw =
    0x53 ∷ 0x4C ∷ 0x4A ∷ 0x4F ∷ 1 ∷ 0 ∷ 1 ∷ 0 ∷ 4 ∷ 0 ∷ 2 ∷ 0 ∷ 8 ∷ 0 ∷ 0 ∷ 0 ∷ 8 ∷ 0 ∷ 0 ∷ 0 ∷ []

pack-small : ojls_hdr_pack small_hdr ≡ small_raw
unfolding ojls_hdr_pack
pack-small = refl

unpack-pack_example : ojls_hdr_unpack (ojls_hdr_pack small_hdr ++ (1 ∷ 2 ∷ [])) ≡ small_hdr
unpack-pack_example = unpack-pack small_hdr (1 ∷ 2 ∷ []) small_hdr-IsHdr

-- Also the bytes of a header with a wrong magic, an unknown type and reserved bytes in use.
pack-unpack_example :
    ojls_hdr_pack (
      ojls_hdr_unpack (
        1 ∷ 2 ∷ 3 ∷ 4 ∷ 5 ∷ 6 ∷ 7 ∷ 8 ∷ 9 ∷ 10 ∷ 11 ∷ 12 ∷ 13 ∷ 14 ∷ 15 ∷ 16 ∷ 17 ∷ 18 ∷ 19 ∷ 255
        ∷ []))
    ≡ 1 ∷ 2 ∷ 3 ∷ 4 ∷ 5 ∷ 6 ∷ 7 ∷ 8 ∷ 9 ∷ 10 ∷ 11 ∷ 12 ∷ 13 ∷ 14 ∷ 0 ∷ 0 ∷ 17 ∷ 18 ∷ 19 ∷ 255 ∷ []
pack-unpack_example = pack-unpack 1 2 3 4 5 6 7 8 9 10 11 12 13 14 15 16 17 18 19 255 (omega arith)

pack_shape_example :
    (length (ojls_hdr_pack small_hdr) ≡ proto_hdr_len)
    × All IsU8 (ojls_hdr_pack small_hdr)
    × (get_or (ojls_hdr_pack small_hdr) 14 1 ≡ 0)
    × (get_or (ojls_hdr_pack small_hdr) 15 1 ≡ 0)
pack_shape_example = pack_shape small_hdr small_hdr-IsHdr

-- Two bytes arrive one at a time.
recv-two :
    recv_full 5 (board (11 ∷ 12 ∷ [])) 2 []
    ≡ some ((pos 0, 11 ∷ 12 ∷ []), sock_read 1 (got (12 ∷ [])) ∷ sock_read 2 (got (11 ∷ [])) ∷ [])
unfolding recv_full recv_loop sys_read on_read
recv-two = refl

recv_full_total_example :
    Returns
      (recv_full 5 (board (11 ∷ 12 ∷ [])) 2 [])
      (λ r t'. Received (board (11 ∷ 12 ∷ [])) [] [] 2 r.0 r.1 t')
recv_full_total_example =
    recv_full_total (board (11 ∷ 12 ∷ [])) 0 5 2 [] (board-Lawful (11 ∷ 12 ∷ [])).reads
      (board-Lawful (11 ∷ 12 ∷ [])).signals (omega arith)

send_full_total_example :
    Returns (send_full 9 (board []) (5 ∷ 6 ∷ 7 ∷ []) []) (Sent [] [] (5 ∷ 6 ∷ 7 ∷ []))
send_full_total_example =
    send_full_total (board []) 0 9 (5 ∷ 6 ∷ 7 ∷ []) [] (board-Lawful []).writes
      (board-Lawful []).signals (omega arith)

drain_total_example : Returns (drain 6000 (board []) 5000 []) (Drained [] [] 5000)
drain_total_example =
    drain_total (board []) 0 6000 5000 [] (board-Lawful []).reads (board-Lawful []).signals
      (omega arith)
