-- ===== src/Examples/Session.antt =====
-- Whole requests and connections.
use open_jls_demos.Prelude.{
  ℕ, ◌≡◌, refl, true, false, List, [], ◌∷◌, Option, none, some, ℤ, pos, arith,
}
use open_jls_demos.World.{Trace, sent}
use open_jls_demos.World.Returns.{Returns}
use open_jls_demos.Proto.{
  ojls_hdr_pack, ojls_hdr_unpack, ojls_put_u16, ojls_put_u32, ojls_get_u16, ojls_get_u32,
  ojls_bytes_per_pixel,
}
use open_jls_demos.Server.Io.{on_read, on_write, recv_loop, recv_full, send_full}
use open_jls_demos.Server.Request.{
  request_status, header_status, size_status, expected_bytes, image_count,
}
use open_jls_demos.Server.Request.Accept.{loopback_accepted_iff}
use open_jls_demos.Server.Replies.{Reply, Sending}
use open_jls_demos.World.System.{sys_read, sys_write, sys_alloc}
use open_jls_demos.Server.Stream.{stream_and_reply}
use open_jls_demos.Server.Stream.Answer.{StreamRun}
use open_jls_demos.Server.Stream.Outcome.{stream_and_reply_total}
use open_jls_demos.Server.Serve.{
  loopback_reply, grow, serve_loopback, serve_request, serve_header, on_header, serve_round,
  serve_next, serve_loop, serve_connection,
}
use open_jls_demos.Server.Serve.Echo.{echo_msg, loopback_reply_total}
use open_jls_demos.Server.Serve.Session.{ConnectionEnd, serve_connection_total}
use open_jls_demos.Examples.Board.{
  board, board-Lawful, board-FinitePeer, board-TransferBound, small_hw,
}
use open_jls_demos.Examples.Wire.{small_hdr}
use open_jls_demos.Examples.Serving.{three_hdr}

abbrev pub pixels : List ℕ
pixels = 1 ∷ 2 ∷ 3 ∷ 4 ∷ 5 ∷ 6 ∷ 7 ∷ 8 ∷ []

abbrev pub small_request : List ℕ
small_request =
    0x53 ∷ 0x4C ∷ 0x4A ∷ 0x4F ∷ 1 ∷ 0 ∷ 1 ∷ 0 ∷ 4 ∷ 0 ∷ 2 ∷ 0 ∷ 8 ∷ 0 ∷ 0 ∷ 0 ∷ 8 ∷ 0 ∷ 0 ∷ 0
    ∷ pixels

abbrev outcome : Option (ℤ × Trace) → Option (ℤ × List ℕ)
outcome none = none
outcome (some (rc, t)) = some (rc, sent t)

-- One request in loopback mode, then the end of the stream.
serve-small :
    outcome (serve_connection 3 60 (board small_request) true small_hw 0 [])
    ≡ some (
      pos 0,
      0x53 ∷ 0x4C ∷ 0x4A ∷ 0x4F ∷ 1 ∷ 0 ∷ 2 ∷ 0 ∷ 4 ∷ 0 ∷ 2 ∷ 0 ∷ 8 ∷ 0 ∷ 0 ∷ 0 ∷ 8 ∷ 0 ∷ 0 ∷ 0
          ∷ pixels,
    )
unfolding serve_connection serve_loop serve_next serve_round on_header serve_header serve_request
    serve_loopback grow loopback_reply request_status header_status size_status expected_bytes
    image_count sys_alloc ojls_hdr_pack ojls_hdr_unpack ojls_put_u16 ojls_put_u32 ojls_get_u16
    ojls_get_u32 ojls_bytes_per_pixel sys_read sys_write on_read on_write recv_loop recv_full
    send_full
serve-small = refl

serve_connection_total_example :
    Returns
      (serve_connection 40 20_000_000_000 (board small_request) false small_hw 10_000 [])
      (ConnectionEnd false small_hw 4 [] [])
serve_connection_total_example =
    serve_connection_total 4 false small_hw 10_000 20_000_000_000 28 40 []
      (board-Lawful small_request) (board-TransferBound small_request) (omega arith) (omega arith)
      (board-FinitePeer small_request) (omega arith)

stream_and_reply_total_example :
    Returns (stream_and_reply 20_000_000_000 (board []) small_hw three_hdr 3 10_000 []) (λ rc u.
      Reply [] [] (StreamRun (board []) 20_000_000_000 small_hw three_hdr 3 10_000 4 [] u) rc u)
stream_and_reply_total_example =
    stream_and_reply_total 4 small_hw three_hdr 3 10_000 20_000_000_000 [] (board-Lawful [])
      (board-TransferBound []) (omega arith) (omega arith)

loopback_accepted : request_status true small_hw small_hdr ≡ 0
unfolding request_status header_status size_status expected_bytes ojls_bytes_per_pixel
loopback_accepted = refl

loopback_reply_total_example :
    Returns
      (loopback_reply 100 (board []) small_hdr pixels [])
      (Sending [] [] (λ msg. msg ≡ echo_msg small_hdr pixels))
loopback_reply_total_example =
    loopback_reply_total small_hdr pixels 100 [] (board-Lawful [])
      ((loopback_accepted_iff small_hw small_hdr).0 loopback_accepted) refl (omega arith)
      (omega arith)
