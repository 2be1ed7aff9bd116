-- ===== src/Examples/Startup.antt =====
-- The server from its command line to its end, and the devices that it opens.
use open_jls_demos.Prelude.{
  ℕ, ◌≡◌, refl, List, [], ◌∷◌, Option, some, codes, atoi, read_number, read_prefixed, read_signed,
  skip_spaces, strtoul, strtoull, arith,
}
use open_jls_demos.World.{Trace}
use open_jls_demos.World.Returns.{Returns}
use open_jls_demos.Uio.Open.{
  uio_open, locate, uio_find, find_in, find_loop, sysfs_read_line, chosen, line_of, found, on_found,
  on_size, on_open, on_mmap,
}
use open_jls_demos.Uio.{now_ms, uio_irq_enable, uio_rd, uio_wr}
use open_jls_demos.World.System.{sys_dir, sys_file, sys_open, sys_mmap}
use open_jls_demos.Udmabuf.Open.{
  udmabuf_open, on_phys, sysfs_read_line as buf_read_line, on_size as buf_on_size,
  on_open as buf_on_open, on_mmap as buf_on_mmap,
}
use open_jls_demos.AxiDma.{axidma_reset, reset_loop}
use open_jls_demos.AxiDma.Open.{axidma_open, on_uio, on_reset}
use open_jls_demos.Uio.Open.Find.{FirstFit, uio_find_first}
use open_jls_demos.Server.Open.{Options, OpenHw, hw_open, identify, open_rest, open_buffers}
use open_jls_demos.Server.Open.Identified.{HwOpened, hw_open_total}
use open_jls_demos.Server.Main.{server_main}
use open_jls_demos.Server.Main.CommandLine.{default_options, take_option, run, parse_options}
use open_jls_demos.Server.Main.Shutdown.{Timely, ServerEnd, server_stops}
use open_jls_demos.Examples.Session.{small_request}
use open_jls_demos.Examples.Board.{
  content, entries, board, board-Lawful, board-TransferBound, board-FinitePeer, board-StopsBy,
}

uio_find_first_example :
    Returns (uio_find (board []) (codes "dma") []) (λ r _. FirstFit content (codes "dma") entries r)
uio_find_first_example =
    uio_find_first (board []) content entries (codes "dma") [] (λ t path. refl) (λ t. refl)

-- The name of the rx buffer, where the hardware was opened.
abbrev rx_name : Option (Option OpenHw × Trace) → List ℕ
rx_name (some (some o, u)) = o.rx_dev.name
rx_name r = []

board_opens : rx_name (hw_open 60 (board []) default_options []) ≡ codes "udmabuf-ojls-rx"
unfolding hw_open identify open_rest open_buffers uio_open locate uio_find find_in find_loop
    sysfs_read_line chosen line_of found on_found on_size on_open on_mmap axidma_open on_uio
    on_reset axidma_reset reset_loop udmabuf_open buf_read_line on_phys buf_on_size buf_on_open
    buf_on_mmap read_number read_prefixed read_signed skip_spaces strtoul strtoull now_ms
    uio_irq_enable uio_rd uio_wr sys_dir sys_file sys_open sys_mmap
board_opens = refl

hw_open_total_example :
    Returns
      (hw_open 200_000_000 (board []) default_options [])
      (HwOpened 200_000_000 (board []) default_options [])
hw_open_total_example = hw_open_total 200_000_000 default_options [] (board-Lawful []) (omega arith)

abbrev echoing : List (List ℕ)
echoing = codes "--loopback" ∷ codes "--timeout" ∷ codes "500" ∷ []

echoing-Timely :
    (opt : Options)
    → parse_options default_options echoing ≡ run opt
    → Timely 0 20_000_000_000 opt.timeout_ms
unfolding parse_options take_option atoi read_number
echoing-Timely opt e = ground (arith, e)

server_stops_example :
    Returns (server_main 2 40 20_000_000_000 (board small_request) echoing []) (ServerEnd [])
server_stops_example =
    server_stops 4 28 1 2 40 20_000_000_000 echoing [] (board-Lawful small_request)
      (board-TransferBound small_request) (omega arith) (board-FinitePeer small_request)
      (board-StopsBy small_request) (omega arith) (omega arith) echoing-Timely
