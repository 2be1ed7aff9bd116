-- ===== src/Udmabuf.antt =====
-- Software/src/udmabuf.c: the cache maintenance of the DMA buffers.
pub mod Sync
pub mod Open
use open_jls_demos.Prelude.{ℕ, ◌∷◌, some, if◌then◌else◌, ℤ, pos, negsuc, is_zero}
use open_jls_demos.World.{
  Buf, Attr, sync_offset, sync_size, sync_direction, sync_for_device, sync_for_cpu, attr_written,
  Env, M, pure, ◌>>=◌,
}

-- A buffer as `udmabuf_open` found it: its bytes and its bus address.
pub record Udmabuf : Type 0 where
  pub buf : Buf
  pub size : ℕ
  pub phys : ℕ

unfoldable pub attr_write : Env → Buf → Attr → ℕ → M ℤ
attr_write env b a v t =
    let io = env.attr_io t b a v in
    let rc = (if io.printed then pos 0 else negsuc 0) in
    some (
      (if io.opened then (if io.closed then rc else negsuc 0) else negsuc 0),
      attr_written b a v io ∷ t,
    )

-- `m != 0 || rest`
abbrev pub unless_failed : M ℤ → M ℤ → M ℤ
unless_failed m rest = m >>= λ rc. if is_zero rc then rest else pure (negsuc 0)

unfoldable pub udmabuf_sync : Env → Buf → ℕ → ℕ → ℕ → Attr → M ℤ
udmabuf_sync env b offset len dir kick = unless_failed (attr_write env b sync_offset offset) (
    unless_failed (attr_write env b sync_size len) (
      unless_failed (attr_write env b sync_direction dir)
        (unless_failed (attr_write env b kick 1) (pure (pos 0)))))

unfoldable pub udmabuf_sync_for_device : Env → Buf → ℕ → ℕ → M ℤ
udmabuf_sync_for_device env b offset len = udmabuf_sync env b offset len 1 sync_for_device

unfoldable pub udmabuf_sync_for_cpu : Env → Buf → ℕ → ℕ → M ℤ
udmabuf_sync_for_cpu env b offset len = udmabuf_sync env b offset len 2 sync_for_cpu
