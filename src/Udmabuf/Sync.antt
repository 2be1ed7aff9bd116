-- ===== src/Udmabuf/Sync.antt =====
-- The sync protocol of a u-dma-buf.
use open_jls_demos.Prelude.{ℕ, ◌≡◌, refl, true, ℤ, pos, negsuc, ◌∷◌, is_zero, arith, some}
use open_jls_demos.World.{
  Env, Trace, Buf, Attr, AttrIo, sync_offset, sync_size, sync_direction, sync_for_device,
  sync_for_cpu, attr_written, M,
}
use open_jls_demos.World.Laws.{Lawful}
use open_jls_demos.World.Silent.{Silent, Silent-event, Silent-bind, Silent-pure, Silent-if}
use open_jls_demos.Udmabuf.{
  attr_write, unless_failed, udmabuf_sync, udmabuf_sync_for_device, udmabuf_sync_for_cpu,
}

module _ {env : Env} {k : ℕ} (law : Lawful env k) where
  attr_write-Silent : (b : Buf) (a : Attr) (v : ℕ) → Silent env (attr_write env b a v)
  unfolding attr_write
  attr_write-Silent b a v = Silent-event law.clock _ _ (λ t u. (refl, refl))

  unless_failed-Silent :
      {m rest : M ℤ} → Silent env m → Silent env rest → Silent env (unless_failed m rest)
  unless_failed-Silent h k = Silent-bind h (λ rc. Silent-if (is_zero rc) k (Silent-pure (negsuc 0)))

  udmabuf_sync-Silent :
      (b : Buf) (offset len dir : ℕ) (kick : Attr)
      → Silent env (udmabuf_sync env b offset len dir kick)
  unfolding udmabuf_sync
  udmabuf_sync-Silent b offset len dir kick =
      unless_failed-Silent (attr_write-Silent b sync_offset offset) (
        unless_failed-Silent (attr_write-Silent b sync_size len) (
          unless_failed-Silent (attr_write-Silent b sync_direction dir)
            (unless_failed-Silent (attr_write-Silent b kick 1) (Silent-pure (pos 0)))))

  pub sync_for_device-Silent :
      (b : Buf) (offset len : ℕ) → Silent env (udmabuf_sync_for_device env b offset len)
  unfolding udmabuf_sync_for_device
  sync_for_device-Silent b offset len = udmabuf_sync-Silent b offset len 1 sync_for_device

  pub sync_for_cpu-Silent :
      (b : Buf) (offset len : ℕ) → Silent env (udmabuf_sync_for_cpu env b offset len)
  unfolding udmabuf_sync_for_cpu
  sync_for_cpu-Silent b offset len = udmabuf_sync-Silent b offset len 2 sync_for_cpu

-- The attribute took the value.
abbrev pub Accepted : AttrIo → Type 0
Accepted io = (io.opened ≡ true) × (io.printed ≡ true) × (io.closed ≡ true)

-- A sync that returns 0 has written offset, size and direction, each taken by the driver, and only
-- then the kick, with nothing between them.
pub sync_order :
    (env : Env) (b : Buf) (offset len dir : ℕ) (kick : Attr) (t t' : Trace)
    → udmabuf_sync env b offset len dir kick t ≡ some (pos 0, t')
    → (w x y z : AttrIo) × (t'
        ≡ attr_written b kick 1 z
          ∷ attr_written b sync_direction dir y
          ∷ attr_written b sync_size len x
          ∷ attr_written b sync_offset offset w
          ∷ t)
      × Accepted w
      × Accepted x
      × Accepted y
      × Accepted z
unfolding udmabuf_sync attr_write
sync_order env b offset len dir kick t t' e =
    let w = env.attr_io t b sync_offset offset in
    let t₁ : Trace = attr_written b sync_offset offset w ∷ t in
    let x = env.attr_io t₁ b sync_size len in
    let t₂ : Trace = attr_written b sync_size len x ∷ t₁ in
    let y = env.attr_io t₂ b sync_direction dir in
    let t₃ : Trace = attr_written b sync_direction dir y ∷ t₂ in
    let z = env.attr_io t₃ b kick 1 in
    (w, x, y, z, ground arith, ground arith, ground arith, ground arith, ground arith)
