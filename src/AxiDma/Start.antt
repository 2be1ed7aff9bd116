-- ===== src/AxiDma/Start.antt =====
-- The registers of the DMA engine after `axidma_sg_start`.
use open_jls_demos.Prelude.{
  ℕ, ◌+◌, ◌-◌, ◌*◌, ◌/◌, ◌%◌, ◌^◌, ◌≤◌, ◌<◌, ◌≡◌, refl, [], ◌∷◌, Option, none, some, arith, u32,
  u64, ◌==◌, if◌then◌else◌, pos,
}
use open_jls_demos.World.{dma, reg_write, Trace}
use open_jls_demos.Uio.{uio_wr}
use open_jls_demos.AxiDma.{
  AxidmaRing, axidma_sg_start, dma_curdesc, dma_curdesc_msb, dma_taildesc, dma_taildesc_msb, dma_cr,
  dma_sr, sr_clear, cr_run, desc_size,
}

-- The value that the program has last written to the DMA register at a byte offset.
abbrev pub last_written : Trace → ℕ → Option ℕ
last_written [] off = none
last_written (reg_write dma i v ∷ t) off = if i == off / 4 then some v else last_written t off
last_written (_ ∷ t) off = last_written t off

-- The start of a channel: both pointers are programmed, the low and the high half, the channel
-- runs, and the write to TAILDESC, which makes the engine fetch, is the last thing done.
pub record IsStarted (chan : ℕ) (ring : AxidmaRing) (t : Trace) : Type 0 where
  pub cur_lo : ℕ
  pub cur_hi : ℕ
  pub tail_lo : ℕ
  pub tail_hi : ℕ
  pub earlier : Trace
  pub cur_lo_is : last_written earlier (dma_curdesc chan) ≡ some cur_lo
  pub cur_hi_is : last_written earlier (dma_curdesc_msb chan) ≡ some cur_hi
  pub tail_hi_is : last_written earlier (dma_taildesc_msb chan) ≡ some tail_hi
  pub running : last_written earlier (dma_cr chan) ≡ some cr_run
  pub kicked : t ≡ reg_write dma (dma_taildesc chan / 4) tail_lo ∷ earlier
  pub first : cur_lo + cur_hi * 2 ^ 32 ≡ ring.phys
  pub last : tail_lo + tail_hi * 2 ^ 32 ≡ ring.phys + (ring.count - 1) * desc_size

-- For a channel at a word offset and a ring with a descriptor that ends below 2 ^ 64,
-- `axidma_sg_start` returns 0, and the last thing that it does is to write TAILDESC; before that it
-- has written both halves of CURDESC, the upper half of TAILDESC and the run bits of the control
-- register. CURDESC is the address of the first descriptor, TAILDESC that of the last.
pub sg_start-IsStarted :
    (chan : ℕ) (ring : AxidmaRing) (t : Trace)
    → chan % 4 ≡ 0
    → 1 ≤ ring.count
    → ring.phys + ring.count * desc_size < 2 ^ 64
    → (t' : Trace) × (axidma_sg_start chan ring t ≡ some (pos 0, t')) × IsStarted chan ring t'
unfolding axidma_sg_start uio_wr
sg_start-IsStarted chan ring t c h w =
    let tail = u64 (ring.phys + (ring.count - 1) * desc_size) in
    let set_up : Trace =
      reg_write dma (dma_taildesc_msb chan / 4) (u32 (tail / 2 ^ 32))
      ∷ reg_write dma (dma_sr chan / 4) sr_clear
      ∷ reg_write dma (dma_cr chan / 4) cr_run
      ∷ reg_write dma (dma_curdesc_msb chan / 4) (u32 (ring.phys / 2 ^ 32))
      ∷ reg_write dma (dma_curdesc chan / 4) (u32 ring.phys)
      ∷ t in
    (
      reg_write dma (dma_taildesc chan / 4) (u32 tail) ∷ set_up,
      ground arith,
      record {
        cur_lo = u32 ring.phys;
        cur_hi = u32 (ring.phys / 2 ^ 32);
        tail_lo = u32 tail;
        tail_hi = u32 (tail / 2 ^ 32);
        earlier = set_up;
        cur_lo_is = ground arith;
        cur_hi_is = ground arith;
        tail_hi_is = ground arith;
        running = ground arith;
        kicked = refl;
        first = omega arith;
        last = omega arith;
      },
    )
