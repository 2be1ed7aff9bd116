-- ===== src/Server/Keeps/Core.antt =====
-- Configuration of the core, recovery and the regions of the server.
use open_jls_demos.Prelude.{ℕ, zero, suc, ◌+◌, ◌∷◌, refl, test_bit, ltb, ◌!=◌, ℤ, is_zero}
use open_jls_demos.World.{Env, M, Trace, Buf, Attr, AttrIo, attr_written, regs, gate}
use open_jls_demos.World.Keeps.{
  Keeps, IsCalm, IsServing, Keeps-pure, Keeps-stuck, Keeps-bind, Keeps-if, Keeps-event,
}
use open_jls_demos.Uio.{reg_width, reg_height, reg_ctrl, reg_status, ctrl_apply}
use open_jls_demos.Uio.Keeps.{uio_rd-Keeps, uio_wr-Keeps, now_us-Keeps}
use open_jls_demos.Udmabuf.{
  attr_write, unless_failed, udmabuf_sync, udmabuf_sync_for_device, udmabuf_sync_for_cpu,
}
use open_jls_demos.AxiDma.Keeps.{reset-Keeps}
use open_jls_demos.Server.{
  DmabufRegion, region_bytes, or_return, busy_loop, configure_from, hw_configure, gate_set,
  gate_thresh, hw_recover,
}

module _ {R : Trace → Trace → Type 0} (calm : IsCalm R) (env : Env) where
  pub or_return-Keeps :
      (m : M ℤ) (code : ℤ) (rest : M ℤ) → Keeps R m → Keeps R rest → Keeps R (or_return m code rest)
  or_return-Keeps m code rest h k =
      Keeps-bind calm.pre h (λ rc. Keeps-if (is_zero rc) k (Keeps-pure calm.pre code))

  busy_loop-Keeps : (fuel deadline : ℕ) → Keeps R (busy_loop fuel env deadline)
  unfolding busy_loop
  busy_loop-Keeps zero deadline = Keeps-stuck calm.pre
  busy_loop-Keeps (suc fuel) deadline =
      Keeps-bind calm.pre (uio_rd-Keeps calm env regs reg_status) (λ st.
        Keeps-if (test_bit st 0)
          (Keeps-bind calm.pre (now_us-Keeps calm env) (λ now.
            Keeps-if (ltb deadline now) (Keeps-pure calm.pre _) (busy_loop-Keeps fuel deadline)))
          (Keeps-pure calm.pre _))

  pub configure-Keeps : (fuel width height : ℕ) → Keeps R (hw_configure fuel env width height)
  unfolding hw_configure configure_from
  configure-Keeps fuel width height = Keeps-bind calm.pre (now_us-Keeps calm env) (λ now.
      Keeps-bind calm.pre (uio_wr-Keeps calm env regs reg_width width refl) (λ _.
        Keeps-bind calm.pre (uio_wr-Keeps calm env regs reg_height height refl) (λ _.
          Keeps-bind calm.pre (uio_rd-Keeps calm env regs reg_width) (λ w.
            Keeps-if (w != width) (Keeps-pure calm.pre _) (
              Keeps-bind calm.pre (uio_rd-Keeps calm env regs reg_height) (λ h.
                Keeps-if (h != height) (Keeps-pure calm.pre _) (
                  Keeps-bind calm.pre (uio_wr-Keeps calm env regs reg_ctrl ctrl_apply refl)
                    (λ _. busy_loop-Keeps fuel (now + 100_000)))))))))

  pub gate_set-Keeps : (ready_pct : ℕ) → Keeps R (gate_set env ready_pct)
  unfolding gate_set
  gate_set-Keeps ready_pct =
      Keeps-bind calm.pre (uio_wr-Keeps calm env gate 0x00 (gate_thresh ready_pct) refl)
        (λ _. Keeps-bind calm.pre (uio_rd-Keeps calm env gate 0x00) (λ v. Keeps-pure calm.pre _))

  pub recover-Keeps : (fuel width height : ℕ) → Keeps R (hw_recover fuel env width height)
  unfolding hw_recover
  recover-Keeps fuel width height =
      Keeps-bind calm.pre (reset-Keeps calm env fuel)
        (λ _. Keeps-bind calm.pre (configure-Keeps fuel width height) (λ _. Keeps-pure calm.pre _))

module _ {R : Trace → Trace → Type 0} (calm : IsCalm R) (env : Env)
    (attrs : (b : Buf) (a : Attr) (v : ℕ) (io : AttrIo) (t : Trace)
      → R t (attr_written b a v io ∷ t)) where
  attr_write-Keeps : (b : Buf) (a : Attr) (v : ℕ) → Keeps R (attr_write env b a v)
  unfolding attr_write
  attr_write-Keeps b a v = Keeps-event _ _ (λ t. attrs b a v _ t)

  unless-Keeps : (m rest : M ℤ) → Keeps R m → Keeps R rest → Keeps R (unless_failed m rest)
  unless-Keeps m rest h k =
      Keeps-bind calm.pre h (λ rc. Keeps-if (is_zero rc) k (Keeps-pure calm.pre _))

  sync-Keeps :
      (b : Buf) (offset len dir : ℕ) (kick : Attr)
      → Keeps R (udmabuf_sync env b offset len dir kick)
  unfolding udmabuf_sync
  sync-Keeps b offset len dir kick = unless-Keeps _ _ (attr_write-Keeps b _ offset) (
      unless-Keeps _ _ (attr_write-Keeps b _ len) (
        unless-Keeps _ _ (attr_write-Keeps b _ dir)
          (unless-Keeps _ _ (attr_write-Keeps b kick 1) (Keeps-pure calm.pre _))))

  pub for_device-Keeps : (b : Buf) (o n : ℕ) → Keeps R (udmabuf_sync_for_device env b o n)
  unfolding udmabuf_sync_for_device
  for_device-Keeps b o n = sync-Keeps b o n 1 _

  pub for_cpu-Keeps : (b : Buf) (o n : ℕ) → Keeps R (udmabuf_sync_for_cpu env b o n)
  unfolding udmabuf_sync_for_cpu
  for_cpu-Keeps b o n = sync-Keeps b o n 2 _

module _ {R : Trace → Trace → Type 0} (serving : IsServing R) (env : Env) where
  pub serving_attrs :
      (b : Buf) (a : Attr) (v : ℕ) (io : AttrIo) (t : Trace) → R t (attr_written b a v io ∷ t)
  serving_attrs b a v io t = serving.device _ refl t

  pub region-Keeps : (r : DmabufRegion) (off len : ℕ) → Keeps R (region_bytes env r off len)
  unfolding region_bytes
  region-Keeps r off len = Keeps-event _ _ (λ t. serving.device _ refl t)
