-- ===== src/Examples/Loopback.antt =====
-- A connection in loopback mode, from both ends.
use open_jls_demos.Prelude.{
  ℕ, suc, ◌≡◌, refl, true, false, List, [], ◌∷◌, none, some, length, drop, pos, arith,
}
use open_jls_demos.World.{Env, Trace, sent, received}
use open_jls_demos.World.System.{sys_read, sys_write, sys_alloc}
use open_jls_demos.Proto.{
  ojls_hdr_pack, ojls_hdr_unpack, ojls_put_u16, ojls_put_u32, ojls_get_u16, ojls_get_u32,
  ojls_bytes_per_pixel,
}
use open_jls_demos.Server.Io.{on_read, recv_loop, recv_full, on_write, send_full}
use open_jls_demos.Server.Request.{
  request_status, hw_status, header_status, size_status, expected_bytes, image_count,
}
use open_jls_demos.Server.Serve.{
  loopback_reply, grow, serve_hardware, finish_request, serve_loopback, serve_request, serve_header,
  on_header, serve_round, serve_next, serve_loop, serve_connection,
}
use open_jls_demos.Server.Serve.Echo.{echo_msg}
use open_jls_demos.Server.Serve.Service.{service, loopback-refines}
use open_jls_demos.Server.Order.{Coherent}
use open_jls_demos.Server.Order.Requests.{connection-Coherent}
use open_jls_demos.Uio.{
  uio_rd, uio_wr, uio_irq_enable, uio_irq_wait, now_us as server_now_us, now_ms, msleep_short,
}
use open_jls_demos.Udmabuf.{attr_write, udmabuf_sync, udmabuf_sync_for_device, udmabuf_sync_for_cpu}
use open_jls_demos.AxiDma.{reset_loop, axidma_reset, axidma_sg_start}
use open_jls_demos.AxiDma.Ring.{ring_desc, ring_loop, store_descs, ring_chunks, axidma_ring_build}
use open_jls_demos.AxiDma.Wait.{
  desc_status, scan_eof_loop, wait_more, wait_verdict, wait_scanned, wait_loop, axidma_wait,
  ring_bytes_loop, axidma_ring_bytes,
}
use open_jls_demos.Server.{hw_configure, configure_from, busy_loop, gate_set, region_bytes}
use open_jls_demos.Server.Encode.{
  encode_and_reply, encode_run, after_wait, encode_reply, built_or_return, send_error,
}
use open_jls_demos.Examples.Session.{small_request}
use open_jls_demos.Client.{encode_req}
use open_jls_demos.Client.Encode.{
  response_room, take_payload, on_response, on_response_raw, encode_once, encode_next,
  encode_rounds,
}
use open_jls_demos.Client.Encode.Ends.{request_msg}
use open_jls_demos.Client.Io.{
  now_us, on_read as client_on_read, recv_loop as client_recv_loop, recv_full as client_recv_full,
  on_write as client_on_write, send_full as client_send_full,
}
use open_jls_demos.Client.Loopback.{loopback_returns_image}
use open_jls_demos.Examples.Board.{
  board, trace_of, board-Lawful, board-FinitePeer, board-TransferBound, small_hw, pgm_file,
}
use open_jls_demos.Examples.Client.{pgm_image, load-pgm_file}

abbrev asked_bytes : List ℕ
asked_bytes = request_msg pgm_image

abbrev answered_bytes : List ℕ
answered_bytes = echo_msg (encode_req pgm_image) pgm_image.pixels

abbrev server_env : Env
server_env = board asked_bytes

abbrev client_env : Env
client_env = board answered_bytes

abbrev served : Trace
served = trace_of (serve_connection 30 20_000_000_000 server_env true small_hw 10 [])

abbrev asked : Trace
asked = trace_of (encode_rounds 1 5_000_000_000 client_env pgm_image none [])

-- Both runs end, and each end has received what the other has sent.
loopback_runs :
    (serve_connection 30 20_000_000_000 server_env true small_hw 10 [] ≡ some (pos 0, served))
    × (encode_rounds 1 5_000_000_000 client_env pgm_image none []
        ≡ some (some pgm_image.pixels, asked))
    × (received served ≡ sent asked)
    × (received asked ≡ sent served)
unfolding serve_connection serve_loop serve_next serve_round on_header serve_header serve_request
    serve_loopback grow loopback_reply request_status header_status size_status expected_bytes
    image_count sys_alloc ojls_hdr_pack ojls_hdr_unpack ojls_put_u16 ojls_put_u32 ojls_get_u16
    ojls_get_u32 ojls_bytes_per_pixel sys_read sys_write on_read on_write recv_loop recv_full
    send_full encode_rounds encode_next encode_once on_response_raw on_response take_payload
    response_room now_us client_on_read client_on_write client_recv_loop client_recv_full
    client_send_full
loopback_runs = (refl, refl, refl, refl)

loopback-refines_example :
    sent served ≡ service (suc (length (received served))) small_hw (received served)
unfolding ojls_hdr_pack ojls_put_u16 ojls_put_u32
loopback-refines_example =
    loopback-refines 4 small_hw 10 20_000_000_000 24 30 served (board-Lawful asked_bytes)
      (board-TransferBound asked_bytes) (omega arith) (omega arith) (board-FinitePeer asked_bytes)
      (omega arith) loopback_runs.0

loopback_returns_image_example : 255 ∷ 3 ∷ 1 ∷ 0 ∷ [] ≡ pgm_image.pixels
unfolding ojls_hdr_pack ojls_put_u16 ojls_put_u32
loopback_returns_image_example =
    loopback_returns_image (λ n. true) pgm_file pgm_image small_hw 0 5_000_000_000 4 10
      20_000_000_000 24 30 (255 ∷ 3 ∷ 1 ∷ 0 ∷ []) asked served load-pgm_file
      (board-Lawful answered_bytes) (omega arith) (board-Lawful asked_bytes)
      (board-TransferBound asked_bytes) (omega arith) (omega arith) (board-FinitePeer asked_bytes)
      (omega arith) loopback_runs.1 loopback_runs.0 loopback_runs.2 loopback_runs.3

-- One request that goes all the way through the hardware, then the end of the stream.
abbrev encoded : Trace
encoded = trace_of (serve_connection 3 60 (board small_request) false small_hw 10 [])

encoding_run :
    (serve_connection 3 60 (board small_request) false small_hw 10 [] ≡ some (pos 0, encoded))
    × (drop 20 (sent encoded) ≡ 7 ∷ 7 ∷ 7 ∷ 7 ∷ [])
unfolding serve_connection serve_loop serve_next serve_round on_header serve_header serve_request
    serve_hardware finish_request grow request_status header_status size_status hw_status
    expected_bytes image_count sys_alloc ojls_hdr_pack ojls_hdr_unpack ojls_put_u16 ojls_put_u32
    ojls_get_u16 ojls_get_u32 ojls_bytes_per_pixel sys_read sys_write on_read on_write recv_loop
    recv_full send_full encode_and_reply encode_run after_wait encode_reply built_or_return
    send_error hw_configure configure_from busy_loop gate_set region_bytes uio_rd uio_wr
    uio_irq_enable uio_irq_wait server_now_us now_ms msleep_short attr_write udmabuf_sync
    udmabuf_sync_for_device udmabuf_sync_for_cpu reset_loop axidma_reset axidma_sg_start ring_desc
    ring_loop store_descs ring_chunks axidma_ring_build desc_status scan_eof_loop wait_more
    wait_verdict wait_scanned wait_loop axidma_wait ring_bytes_loop axidma_ring_bytes
encoding_run = (refl, refl)

connection-Coherent_example : Coherent 0x1_0000 encoded
connection-Coherent_example =
    connection-Coherent (board small_request) 60 3 false small_hw 10 [] encoded (pos 0)
      (record { tx_is = refl; rx_is = refl; desc_is = refl }) (board-Lawful small_request).reads tt
      encoding_run.0
