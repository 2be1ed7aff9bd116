-- ===== src/Server.antt =====
-- Software/src/ojls_server.c: the board-side server. The hardware handle and the core's registers.
pub mod Io
pub mod Quiet
pub mod Configure
pub mod Replies
pub mod Request
pub mod Encode
pub mod Stream
pub mod Serve
pub mod Open
pub mod Keeps
pub mod Main
pub mod Order
use open_jls_demos.Prelude.{
  ℕ, zero, suc, ◌+◌, ◌*◌, ◌/◌, ◌%◌, ◌^◌, Bool, true, false, ◌||◌, not, List, [], ◌∷◌, Option, none,
  some, u32, u64, test_bit, ltb, ◌==◌, ◌!=◌, if◌then◌else◌, ℤ, pos, negsuc, is_zero,
}
use open_jls_demos.World.{Buf, Dev, regs, gate, mem_read, Env, Trace, M, pure, emit, ◌>>=◌, ◌>>◌}
use open_jls_demos.Uio.{
  uio_rd, uio_wr, now_us, reg_width, reg_height, reg_ctrl, reg_status, ctrl_apply,
}
use open_jls_demos.Udmabuf.{Udmabuf}
use open_jls_demos.AxiDma.{axidma_reset}

pub record DmabufRegion : Type 0 where
  pub b : Udmabuf
  pub off : ℕ
  pub size : ℕ

abbrev pub region_phys : DmabufRegion → ℕ
region_phys r = u64 (r.b.phys + r.off)

-- The bytes of a region's buffer from an offset on, as the CPU reads them.
bytes_from : Env → Trace → Buf → ℕ → ℕ → List ℕ
bytes_from env t b zero off = []
bytes_from env t b (suc n) off = env.byte t b off ∷ bytes_from env t b n (off + 1)

-- `region_mem(r) + off`, read for `len` bytes
unfoldable pub region_bytes : Env → DmabufRegion → ℕ → ℕ → M (List ℕ)
unfolding bytes_from
region_bytes env r off len t =
    some (bytes_from env t r.b.buf len (r.off + off), mem_read r.b.buf (r.off + off) len ∷ t)

-- The handles that only name a device are the constructors of `Dev`; `irq_ok` is `dma.uio.irq_ok`.
pub record Hw : Type 0 where
  pub irq_ok : Bool
  pub desc_buf : Udmabuf
  pub tx : DmabufRegion
  pub rx : DmabufRegion
  pub bitness : ℕ
  pub max_width : ℕ
  pub max_height : ℕ

-- `if (m != 0) return code;`
abbrev pub or_return : M ℤ → ℤ → M ℤ → M ℤ
or_return m code rest = m >>= λ rc. if is_zero rc then rest else pure code

unfoldable pub busy_loop : ℕ → Env → ℕ → M ℤ
busy_loop zero env deadline = λ t. none
busy_loop (suc fuel) env deadline = do
  st ← uio_rd env regs reg_status
  if test_bit st 0
      then (do
        now ← now_us env
        if ltb deadline now then pure (negsuc 0) else busy_loop fuel env deadline)
      else pure (pos 0)

-- From the first register write on; `now` is the time at the call.
unfoldable pub configure_from : ℕ → Env → ℕ → ℕ → ℕ → M ℤ
configure_from fuel env width height now = do
  uio_wr regs reg_width width
  uio_wr regs reg_height height
  w ← uio_rd env regs reg_width
  if w != width then pure (negsuc 0) else (do
    h ← uio_rd env regs reg_height
    if h != height
        then pure (negsuc 0)
        else (do uio_wr regs reg_ctrl ctrl_apply; busy_loop fuel env (now + 100_000)))

unfoldable pub hw_configure : ℕ → Env → ℕ → ℕ → M ℤ
hw_configure fuel env width height = now_us env >>= configure_from fuel env width height

abbrev pub gate_thresh : ℕ → ℕ
gate_thresh ready_pct = u32 (ready_pct * 65536) / 100

unfoldable pub gate_set : Env → ℕ → M ℤ
gate_set env ready_pct = do
  uio_wr gate 0x00 (gate_thresh ready_pct)
  v ← uio_rd env gate 0x00
  pure (if v == gate_thresh ready_pct then pos 0 else negsuc 0)

-- Both results are dropped.
unfoldable pub hw_recover : ℕ → Env → ℕ → ℕ → M (Unit {0})
hw_recover fuel env width height = do
  _ ← axidma_reset fuel env
  _ ← hw_configure fuel env width height
  pure tt
