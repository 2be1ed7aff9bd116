-- ===== src/Examples/Dma.antt =====
-- The DMA driver.
use open_jls_demos.Prelude.{◌+◌, ◌*◌, ◌≤◌, ◌≡◌, refl, true, [], ◌∷◌, ◌++◌, some, All, pos, arith}
use open_jls_demos.World.{
  Trace, desc, tx, attr_written, AttrIo, sync_offset, sync_size, sync_direction, sync_for_cpu,
}
use open_jls_demos.World.Returns.{Returns}
use open_jls_demos.World.Silent.{Quiet}
use open_jls_demos.Udmabuf.{Udmabuf, udmabuf_sync, attr_write}
use open_jls_demos.Udmabuf.Sync.{Accepted, sync_order}
use open_jls_demos.AxiDma.{AxidmaRing, s2mm, desc_size, axidma_reset, axidma_sg_start}
use open_jls_demos.AxiDma.Ring.{ring_loop, ring_chunks, axidma_ring_build}
use open_jls_demos.AxiDma.Ring.Cover.{Tiles, ring_covers}
use open_jls_demos.AxiDma.Ring.Frame.{AllLinked, ring_links}
use open_jls_demos.AxiDma.Ring.Store.{InRegion, built_ring, ring_build_fits}
use open_jls_demos.AxiDma.Start.{IsStarted, sg_start-IsStarted}
use open_jls_demos.AxiDma.Reset.{ResetEnd, axidma_reset_total}
use open_jls_demos.AxiDma.Wait.{axidma_wait, axidma_wait_packets}
use open_jls_demos.AxiDma.Wait.Outcome.{WaitEnd, axidma_wait_total}
use open_jls_demos.AxiDma.Wait.Packets.{PacketsEnd, wait_packets_total}
use open_jls_demos.Examples.Board.{board, board-Lawful}

abbrev desc_buf : Udmabuf
desc_buf = record { buf = desc; size = 4096; phys = 0x1800_0000 }

-- Three descriptors for 2500 bytes in chunks of 1000.
abbrev ring : AxidmaRing
ring = record { db = desc_buf; off = 0; phys = 0x1800_0000; count = 3 }

ring_covers_example : Tiles 1000 0x1000_0000 2500 (
    ring_loop
      (ring_chunks 2500 1000)
      0
      0x1800_0000
      (ring_chunks 2500 1000)
      1000
      true
      2500
      0x1000_0000)
ring_covers_example =
    ring_covers 0x1800_0000 1000 2500 0x1000_0000 true (omega arith) (omega arith) (omega arith)
      (omega arith) (omega arith)

ring_links_example :
    AllLinked 0x1800_0000 3 true 0 (ring_loop 3 0 0x1800_0000 3 1000 true 2500 0x1000_0000)
ring_links_example = ring_links 3 0x1800_0000 1000 true 2500 0x1000_0000 (omega arith)

three_chunks : ring_chunks 2500 1000 ≡ 3
unfolding ring_chunks
three_chunks = refl

three_fit : ring_chunks 2500 1000 * desc_size ≤ 2048
three_fit = omega (arith, three_chunks)

ring_build_fits_example :
    (new : Trace) × (axidma_ring_build desc_buf 0 2048 0x1000_0000 2500 1000 true []
      ≡ some ((pos 0, some (built_ring desc_buf 0 2048 0x1000_0000 2500 1000 true [])), new ++ []))
    × All (InRegion 0 (0 + 2048)) new
ring_build_fits_example =
    ring_build_fits desc_buf 0 2048 0x1000_0000 2500 1000 true [] (omega arith) (omega arith)
      (omega arith) three_fit (omega arith)

sg_start-IsStarted_example :
    (t' : Trace) × (axidma_sg_start s2mm ring [] ≡ some (pos 0, t')) × IsStarted s2mm ring t'
sg_start-IsStarted_example =
    sg_start-IsStarted s2mm ring [] (omega arith) (omega arith) (omega arith)

axidma_reset_total_example :
    Returns
      (axidma_reset 200_000_000 (board []) [])
      (λ rc t'. Quiet (board []) [] t' × ResetEnd 100 rc t')
axidma_reset_total_example = axidma_reset_total 200_000_000 [] (board-Lawful []) (omega arith)

axidma_wait_total_example :
    Returns
      (axidma_wait 200_000_000 (board []) true s2mm ring 50 [])
      (λ rc t'. Quiet (board []) [] t' × WaitEnd 50 rc t')
axidma_wait_total_example =
    axidma_wait_total 200_000_000 true ring 50 [] (board-Lawful []) (omega arith) (omega arith)

wait_packets_total_example :
    Returns
      (axidma_wait_packets 200_000_000 (board []) true ring 50 [])
      (λ rc t'. Quiet (board []) [] t' × PacketsEnd ring 50 rc t')
wait_packets_total_example =
    wait_packets_total 200_000_000 true ring 50 [] (board-Lawful []) (omega arith) (omega arith)

abbrev good_io : AttrIo
good_io = record { opened = true; printed = true; closed = true }

abbrev synced : Trace
synced =
    attr_written tx sync_for_cpu 1 good_io
    ∷ attr_written tx sync_direction 2 good_io
    ∷ attr_written tx sync_size 64 good_io
    ∷ attr_written tx sync_offset 0 good_io
    ∷ []

sync-run : udmabuf_sync (board []) tx 0 64 2 sync_for_cpu [] ≡ some (pos 0, synced)
unfolding udmabuf_sync attr_write
sync-run = refl

sync_order_example :
    (w x y z : AttrIo) × (synced
      ≡ attr_written tx sync_for_cpu 1 z
        ∷ attr_written tx sync_direction 2 y
        ∷ attr_written tx sync_size 64 x
        ∷ attr_written tx sync_offset 0 w
        ∷ [])
    × Accepted w
    × Accepted x
    × Accepted y
    × Accepted z
sync_order_example = sync_order (board []) tx 0 64 2 sync_for_cpu [] synced sync-run
