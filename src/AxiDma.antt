-- ===== src/AxiDma.antt =====
-- Software/src/axidma.c and axidma.h: registers, reset and start of the AXI DMA engine.
pub mod Ring
pub mod Wait
pub mod Start
pub mod Reset
pub mod Keeps
pub mod Open
use open_jls_demos.Prelude.{
  ℕ, zero, suc, ◌+◌, ◌-◌, ◌*◌, ◌/◌, ◌%◌, ◌^◌, Bool, true, false, ◌||◌, ◌&&◌, not, List, [], ◌∷◌,
  Option, none, some, u32, u64, test_bit, set_bit, ltb, ◌==◌, ◌!=◌, if◌then◌else◌, ℤ, pos, negsuc,
  is_zero,
}
use open_jls_demos.World.{Dev, dma, desc_stored, status_read, Env, M, pure, emit, ◌>>=◌, ◌>>◌}
use open_jls_demos.World.Desc.{AxidmaDesc}
use open_jls_demos.Uio.{uio_rd, uio_wr, uio_irq_enable, uio_irq_wait, now_ms, msleep_short}
use open_jls_demos.Udmabuf.{Udmabuf, udmabuf_sync_for_cpu}

abbrev pub mm2s : ℕ
mm2s = 0x00

abbrev pub s2mm : ℕ
s2mm = 0x30

abbrev pub dma_cr : ℕ → ℕ
dma_cr chan = chan + 0x00

abbrev pub dma_sr : ℕ → ℕ
dma_sr chan = chan + 0x04

abbrev pub dma_curdesc : ℕ → ℕ
dma_curdesc chan = chan + 0x08

abbrev pub dma_curdesc_msb : ℕ → ℕ
dma_curdesc_msb chan = chan + 0x0C

abbrev pub dma_taildesc : ℕ → ℕ
dma_taildesc chan = chan + 0x10

abbrev pub dma_taildesc_msb : ℕ → ℕ
dma_taildesc_msb chan = chan + 0x14

-- Bit numbers of CR_RS, CR_RESET, CR_IOC_IRQ and CR_ERR_IRQ: 0, 2, 12, 14.
abbrev pub cr_reset : ℕ
cr_reset = 2 ^ 2

-- AXIDMA_CR_RS | AXIDMA_CR_IOC_IRQ | AXIDMA_CR_ERR_IRQ
abbrev pub cr_run : ℕ
cr_run = 2 ^ 0 + 2 ^ 12 + 2 ^ 14

-- AXIDMA_SR_IOC | AXIDMA_SR_ERR, written to clear
abbrev pub sr_clear : ℕ
sr_clear = 2 ^ 12 + 2 ^ 14

-- `(sr & AXIDMA_SR_ANY_ERR) != 0`
abbrev pub sr_any_err : ℕ → Bool
sr_any_err sr = test_bit sr 4 || test_bit sr 5 || test_bit sr 6 || test_bit sr 14

-- `v & AXIDMA_DESC_LEN_MASK`
abbrev pub desc_len : ℕ → ℕ
desc_len v = v % 2 ^ 26

abbrev pub eof_bit : ℕ
eof_bit = 26

abbrev pub sof_bit : ℕ
sof_bit = 27

abbrev pub cmplt_bit : ℕ
cmplt_bit = 31

-- `(st & AXIDMA_DESC_ERR_MASK) != 0`
abbrev pub desc_err : ℕ → Bool
desc_err st = st / 2 ^ 28 % 8 != 0

abbrev pub desc_chunk : ℕ
desc_chunk = 32 * 1024 * 1024

-- `sizeof(struct axidma_desc)`
abbrev pub desc_size : ℕ
desc_size = 64

-- `desc` is `db->mem + off`, so it is not kept here.
pub record AxidmaRing : Type 0 where
  pub db : Udmabuf
  pub off : ℕ
  pub phys : ℕ
  pub count : ℕ

-- The loop of `axidma_reset`. `late` is its body.
unfoldable pub reset_loop : ℕ → Env → ℕ → M ℤ
reset_loop zero env deadline = λ t. none
reset_loop (suc fuel) env deadline =
    let late : M ℤ = (do
      now ← now_ms env
      if ltb deadline now
          then pure (negsuc 0)
          else (msleep_short >> reset_loop fuel env deadline)) in
    (do
      a ← uio_rd env dma (dma_cr mm2s)
      if test_bit a 2
          then late
          else (do b ← uio_rd env dma (dma_cr s2mm); if test_bit b 2 then late else pure (pos 0)))

unfoldable pub axidma_reset : ℕ → Env → M ℤ
axidma_reset fuel env = do
  now ← now_ms env
  uio_wr dma (dma_cr mm2s) cr_reset
  uio_wr dma (dma_cr s2mm) cr_reset
  reset_loop fuel env (now + 100)

unfoldable pub axidma_sg_start : ℕ → AxidmaRing → M ℤ
axidma_sg_start chan ring = if ring.count == 0 then pure (negsuc 0) else (do
  let first = ring.phys
  let tail = u64 (ring.phys + (ring.count - 1) * desc_size)
  uio_wr dma (dma_curdesc chan) (u32 first)
  uio_wr dma (dma_curdesc_msb chan) (u32 (first / 2 ^ 32))
  uio_wr dma (dma_cr chan) cr_run
  uio_wr dma (dma_sr chan) sr_clear
  uio_wr dma (dma_taildesc_msb chan) (u32 (tail / 2 ^ 32))
  uio_wr dma (dma_taildesc chan) (u32 tail)
  pure (pos 0))
