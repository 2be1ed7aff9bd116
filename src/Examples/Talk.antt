-- ===== src/Examples/Talk.antt =====
-- The client's exchanges and its command line.
use open_jls_demos.Prelude.{
  ◌≡◌, refl, List, [], ◌∷◌, ◌++◌, none, some, pos, codes, atoi, read_number, ℕ, arith,
}
use open_jls_demos.World.{Trace, sent}
use open_jls_demos.World.System.{
  sys_file, sys_save, sys_alloc, sys_resolve, sys_socket, sys_connect, sys_close, sys_read,
  sys_write,
}
use open_jls_demos.World.Handles.{Balance, descriptor, acquired, released}
use open_jls_demos.Proto.{
  ojls_hdr_pack, ojls_hdr_unpack, ojls_put_u16, ojls_put_u32, ojls_get_u16, ojls_get_u32,
}
use open_jls_demos.Server.Serve.Echo.{echo_msg}
use open_jls_demos.Client.{encode_req}
use open_jls_demos.Client.Connect.{on_connect, on_socket, connect_loop, connect_host}
use open_jls_demos.Client.Files.{parse_file, load_path, stem, default_out, save_result}
use open_jls_demos.Client.Io.{now_us, on_read, recv_loop, recv_full, on_write, send_full}
use open_jls_demos.Client.Pgm.{
  digits, skip_to_digit, pgm_token, bitness_loop, pgm_bitness, swap_samples, pgm_pixels, pgm_body,
  pgm_header, pgm_load,
}
use open_jls_demos.World.Returns.{Returns}
use open_jls_demos.Client.Encode.{
  response_room, take_payload, on_response, on_response_raw, encode_once, encode_next,
  encode_rounds,
}
use open_jls_demos.Client.Encode.Ends.{request_msg, RoundsEnd}
use open_jls_demos.Client.Encode.Answers.{encode_rounds_total}
use open_jls_demos.Client.Stream.{Loaded, stream_exchange, with_connection}
use open_jls_demos.Client.Stream.Outcome.{StreamEnd}
use open_jls_demos.Client.Stream.Exchange.{stream_msg, stream_exchange_total}
use open_jls_demos.Client.Main.{
  override_bitness, save_rounds, encode_exchange, encode_image, run_single, run_args, client_main,
}
use open_jls_demos.Client.Main.Args.{
  default_args, parse_args, take_option, take_plain, take_path, all_read,
}
use open_jls_demos.Client.Main.Args.Settings.{
  Setting, set_port, set_ready, set_dir, spell, meaning, request_of, command_line_means,
}
use open_jls_demos.Client.Descriptors.{client_main_closes}
use open_jls_demos.Examples.Board.{board, trace_of, board-Lawful}
use open_jls_demos.Examples.Client.{pgm_image}

encode_rounds_total_example :
    Returns
      (encode_rounds 2 5_000_000_000 (board (1 ∷ 2 ∷ [])) pgm_image none [])
      (RoundsEnd 2 pgm_image none [] [])
encode_rounds_total_example =
    encode_rounds_total 5_000_000_000 pgm_image 2 [] (board-Lawful (1 ∷ 2 ∷ [])) (omega arith)
      (omega arith)

abbrev two_images : Loaded
two_images = (pgm_image, pgm_image.pixels ++ pgm_image.pixels)

abbrev two_paths : List (List ℕ)
two_paths = codes "a.pgm" ∷ codes "b.pgm" ∷ []

stream_exchange_total_example :
    Returns
      (stream_exchange 5_000_000_000 (board []) (codes "out") 50 two_paths two_images [])
      (StreamEnd (codes "out") two_paths (stream_msg two_images 50 2) [] [] [])
stream_exchange_total_example =
    stream_exchange_total 5_000_000_000 (codes "out") 50 two_paths two_images [] (board-Lawful [])
      (omega arith)

abbrev arguments : List (List ℕ)
arguments = codes "10.0.0.2" ∷ codes "a.pgm" ∷ []

-- The peer answers with the pixels of `a.pgm`.
abbrev echoing_peer : List ℕ
echoing_peer = echo_msg (encode_req pgm_image) pgm_image.pixels

abbrev whole_run : Trace
whole_run = trace_of (client_main 5_000_000_000 (board echoing_peer) arguments [])

-- The run succeeds: it opens a socket, sends the image, writes a file and closes the socket.
client_succeeds :
    (client_main 5_000_000_000 (board echoing_peer) arguments [] ≡ some (pos 0, whole_run))
    × (sent whole_run ≡ request_msg pgm_image)
    × (acquired (descriptor 3) whole_run ≡ 1)
    × (released (descriptor 3) whole_run ≡ 1)
unfolding client_main run_args run_single encode_image encode_exchange save_rounds save_result
    override_bitness load_path parse_file sys_file sys_save sys_alloc sys_resolve sys_socket
    sys_connect sys_close connect_host connect_loop on_socket on_connect with_connection default_out
    stem parse_args take_option take_plain take_path all_read pgm_load pgm_header pgm_token
    skip_to_digit digits pgm_body pgm_bitness bitness_loop pgm_pixels swap_samples ojls_hdr_pack
    ojls_hdr_unpack ojls_put_u16 ojls_put_u32 ojls_get_u16 ojls_get_u32 sys_read sys_write
    encode_rounds encode_next encode_once on_response_raw on_response take_payload response_room
    now_us on_read on_write recv_loop recv_full send_full
client_succeeds = (refl, refl, refl, refl)

client_main_closes_example :
    Returns
      (client_main 5_000_000_000 (board echoing_peer) arguments [])
      (λ _ u. Balance [] [] [] u)
client_main_closes_example =
    client_main_closes 5_000_000_000 arguments [] (board-Lawful echoing_peer) (omega arith)

abbrev settings : List Setting
settings = set_port (codes "4000") ∷ set_dir (codes "out") ∷ set_ready (codes "50") ∷ []

command_line_means_example :
    parse_args default_args (spell settings (codes "10.0.0.2" ∷ codes "a.pgm" ∷ []))
    ≡ request_of
        (meaning settings default_args)
        (some (codes "out"))
        (codes "10.0.0.2")
        (codes "a.pgm")
unfolding atoi read_number
command_line_means_example =
    command_line_means settings (codes "10.0.0.2") (codes "a.pgm") (tt, (tt, (refl, tt))) refl refl
