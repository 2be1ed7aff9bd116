-- ===== src/Server/Open.antt =====
-- Software/src/ojls_server.c: `hw_open` and `hw_close`.
pub mod Identified
use open_jls_demos.Prelude.{ℕ, Bool, List, Option, none, some, codes, ◌!=◌, if◌then◌else◌, ℤ}
use open_jls_demos.World.{regs, tx, rx, desc, Buf, Env, M, pure, ◌>>=◌, ◌>>◌}
use open_jls_demos.Uio.{
  uio_rd, reg_id, reg_version, reg_caps, reg_maxdim, id_value, caps_bitness, maxdim_width,
  maxdim_height,
}
use open_jls_demos.Uio.Open.{Uio, uio_open, uio_close}
use open_jls_demos.Udmabuf.{Udmabuf}
use open_jls_demos.Udmabuf.Open.{Handle, udmabuf_open, udmabuf_close}
use open_jls_demos.AxiDma.Open.{Axidma, axidma_open, axidma_close}
use open_jls_demos.Server.{DmabufRegion, Hw}

-- `struct options`; a buffer name is `none` for NULL.
pub record Options : Type 0 where
  pub port : ℤ
  pub regs_name : List ℕ
  pub dma_name : List ℕ
  pub gate_name : List ℕ
  pub tx_buf : Option (List ℕ)
  pub rx_buf : Option (List ℕ)
  pub desc_buf : Option (List ℕ)
  pub timeout_ms : ℤ
  pub loopback : Bool

-- What `hw_open` opened, and the handle for the requests made of it.
pub record OpenHw : Type 0 where
  pub regs_dev : Uio
  pub gate_dev : Uio
  pub dma_dev : Axidma
  pub tx_dev : Handle
  pub rx_dev : Handle
  pub desc_dev : Handle
  pub hw : Hw

abbrev pub buffer : Buf → Handle → Udmabuf
buffer buf b = record { buf = buf; size = b.size; phys = b.phys }

abbrev pub whole : Udmabuf → DmabufRegion
whole b = record { b = b; off = 0; size = b.size }

-- The handle, from the capability registers.
abbrev pub hw_of : ℕ → ℕ → Bool → Handle → Handle → Handle → Hw
hw_of caps maxdim irq_ok tx_dev rx_dev desc_dev = record {
  irq_ok = irq_ok;
  desc_buf = buffer desc desc_dev;
  tx = whole (buffer tx tx_dev);
  rx = whole (buffer rx rx_dev);
  bitness = caps_bitness caps;
  max_width = maxdim_width maxdim;
  max_height = maxdim_height maxdim;
}

abbrev pub or_name : Option (List ℕ) → List ℕ → List ℕ
or_name none s = s
or_name (some r) s = r

-- `if (open(…) != 0) return -1;`
abbrev pub or_fails : {A B : Type 0} → M (Option A) → (A → M (Option B)) → M (Option B)
or_fails m k = m >>= λ r. elim r [ none ↦ pure none | some a ↦ k a ]

unfoldable pub open_buffers : Env → Options → Uio → Uio → ℕ → ℕ → Axidma → M (Option OpenHw)
open_buffers env opt regs_dev gate_dev caps maxdim dma_dev =
    or_fails (udmabuf_open env (or_name opt.tx_buf (codes "udmabuf-ojls-tx"))) λ tx_dev.
      or_fails (udmabuf_open env (or_name opt.rx_buf (codes "udmabuf-ojls-rx"))) λ rx_dev.
        or_fails (udmabuf_open env (or_name opt.desc_buf (codes "udmabuf-ojls-desc"))) λ desc_dev.
          pure (
            some (record {
              regs_dev = regs_dev;
              gate_dev = gate_dev;
              dma_dev = dma_dev;
              tx_dev = tx_dev;
              rx_dev = rx_dev;
              desc_dev = desc_dev;
              hw = hw_of caps maxdim dma_dev.1 tx_dev rx_dev desc_dev;
            }))

unfoldable pub open_rest : ℕ → Env → Options → Uio → ℕ → ℕ → M (Option OpenHw)
open_rest fuel env opt regs_dev caps maxdim = or_fails (uio_open env opt.gate_name) λ gate_dev.
    or_fails (axidma_open fuel env opt.dma_name)
      (open_buffers env opt regs_dev gate_dev caps maxdim)

unfoldable pub identify : ℕ → Env → Options → Uio → M (Option OpenHw)
identify fuel env opt regs_dev = do
  id ← uio_rd env regs reg_id
  if id != id_value then pure none else (do
    _ ← uio_rd env regs reg_version
    caps ← uio_rd env regs reg_caps
    maxdim ← uio_rd env regs reg_maxdim
    open_rest fuel env opt regs_dev caps maxdim)

-- `none` is -1; what was opened before a failure stays open until the program exits.
unfoldable pub hw_open : ℕ → Env → Options → M (Option OpenHw)
hw_open fuel env opt = or_fails (uio_open env opt.regs_name) (identify fuel env opt)

unfoldable pub hw_close : OpenHw → M (Unit {0})
hw_close o =
    udmabuf_close o.desc_dev
    >> (udmabuf_close o.rx_dev
        >> (udmabuf_close o.tx_dev
            >> (axidma_close o.dma_dev >> (uio_close o.gate_dev >> uio_close o.regs_dev))))
