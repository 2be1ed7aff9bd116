-- ===== src/Server/Order/Syncs.antt =====
-- What the syncs of the buffers give, and what the start of the engine and the reads need.
use open_jls_demos.Prelude.{
  ℕ, ◌+◌, ◌/◌, ◌≡◌, refl, sym, ap, ◌∙◌, true, ◌∷◌, Option, none, some, ◌==◌, Bool-cases, inl, inr,
  ℤ, pos, arith,
}
use mathlib.Core.Path.{subst}
use open_jls_demos.World.{
  Buf, tx, rx, desc, dma, Attr, AttrIo, sync_for_device, sync_for_cpu, reg_write, mem_read,
  attr_written, Env, Trace, M,
}
use open_jls_demos.World.Keeps.{Upon, Upon-some, Keeps, Keeps-pure, Keeps-bind, Keeps-if}
use open_jls_demos.Uio.{uio_wr}
use open_jls_demos.Udmabuf.{udmabuf_sync, udmabuf_sync_for_device, udmabuf_sync_for_cpu}
use open_jls_demos.Udmabuf.Sync.{Accepted, sync_order}
use open_jls_demos.AxiDma.{AxidmaRing, axidma_sg_start}
use open_jls_demos.Server.{DmabufRegion, region_bytes}
use open_jls_demos.Server.Keeps.{for_device-Keeps, for_cpu-Keeps}
use open_jls_demos.Server.Order.{covers, last_stored, Coherent, is_tail}
use open_jls_demos.Server.Order.Leads.{
  Gives, Stays, within, PixelsStored, PixelsFlushed, AllFlushed, RxOwned, Coherent-IsCalm,
  AllFlushed-IsCalm,
}

Upon-intro :
    {A : Type 0} (r : Option (A × Trace)) (P : A → Trace → Type 0)
    → ((a : A) (u : Trace) → r ≡ some (a, u) → P a u)
    → Upon r P
Upon-intro none P h = tt
Upon-intro (some (a, u)) P h = h a u refl

module _ (size : ℕ) (env : Env) where
  pub for_device-Coherent :
      (b : Buf) (o n : ℕ) → Keeps (Stays (Coherent size)) (udmabuf_sync_for_device env b o n)
  for_device-Coherent b o n = for_device-Keeps (Coherent-IsCalm size) env (λ b a v io t c. c) b o n

  pub for_cpu-Coherent :
      (b : Buf) (o n : ℕ) → Keeps (Stays (Coherent size)) (udmabuf_sync_for_cpu env b o n)
  for_cpu-Coherent b o n = for_cpu-Keeps (Coherent-IsCalm size) env (λ b a v io t c. c) b o n

  covers-within :
      (o n : ℕ) (r : Option (ℕ × ℕ))
      → within o n r ≡ true
      → covers 1 (some 1) (some o) (some n) r ≡ true
  covers-within o n none e = cc
  covers-within o n (some (lo, len)) e = e

  -- A sync that succeeds has staged its range and its direction before the kick.
  sync-Gives :
      (m : M ℤ) (b : Buf) (o n dir : ℕ) (kick : Attr) (P Q : Trace → Type 0)
      → m ≡ udmabuf_sync env b o n dir kick
      → ((t : Trace) → P t → Coherent size t)
      → Keeps (Stays (Coherent size)) m
      → ((t : Trace) (w x y z : AttrIo)
          → P t
          → Accepted w
          → Accepted x
          → Accepted y
          → Accepted z
          → Coherent size (
              attr_written b kick 1 z
              ∷ attr_written b Attr.sync_direction dir y
              ∷ attr_written b Attr.sync_size n x
              ∷ attr_written b Attr.sync_offset o w
              ∷ t)
          → Q (
              attr_written b kick 1 z
              ∷ attr_written b Attr.sync_direction dir y
              ∷ attr_written b Attr.sync_size n x
              ∷ attr_written b Attr.sync_offset o w
              ∷ t))
      → Gives size P Q m
  sync-Gives m b o n dir kick P Q same coherent keeps q = record {
    runs = λ t p.
        Upon-intro (m t) (λ rc u. Coherent size u × (rc ≡ pos 0 → Q u))
          (λ rc u e.
            let c : Coherent size u =
              Upon-some (m t) (λ _ v. Stays (Coherent size) t v) (keeps.runs t) e (coherent t p) in
            (c, λ z. go t u p c (sym (ap (λ f. f t) same) ∙ e ∙ ap (λ r. some (r, u)) z)));
  }
    where
      go :
          (t u : Trace)
          → P t
          → Coherent size u
          → udmabuf_sync env b o n dir kick t ≡ some (pos 0, u)
          → Q u
      go t u p c e =
          let (w, x, y, z, shape, a, b, c₁, d) = sync_order env b o n dir kick t u e in
          subst Q (sym shape) (q t w x y z p a b c₁ d (subst (Coherent size) shape c))

  pub sync_tx-Gives :
      (b : Buf) (o n : ℕ)
      → b ≡ tx
      → Gives size (PixelsStored size o n) (PixelsFlushed size) (udmabuf_sync_for_device env b o n)
  unfolding udmabuf_sync_for_device
  sync_tx-Gives b o n e =
      subst
        (λ b.
          Gives size (PixelsStored size o n) (PixelsFlushed size)
            (udmabuf_sync_for_device env b o n))
        (sym e)
        (sync-Gives (udmabuf_sync_for_device env tx o n) tx o n 1 sync_for_device
          (PixelsStored size o n) (PixelsFlushed size) refl (λ t p. p.0)
          (for_device-Coherent tx o n)
          (λ t w x y z p f g h i c.
            (c, ground (arith, f, g, h, i, covers-within o n (last_stored t) p.1))))

  pub sync_desc-Gives :
      (b : Buf)
      → b ≡ desc
      → Gives size (PixelsFlushed size) (AllFlushed size) (udmabuf_sync_for_device env b 0 size)
  unfolding udmabuf_sync_for_device
  sync_desc-Gives b e =
      subst
        (λ b.
          Gives size (PixelsFlushed size) (AllFlushed size) (udmabuf_sync_for_device env b 0 size))
        (sym e)
        (sync-Gives (udmabuf_sync_for_device env desc 0 size) desc 0 size 1 sync_for_device
          (PixelsFlushed size) (AllFlushed size) refl (λ t p. p.0) (for_device-Coherent desc 0 size)
          (λ t w x y z p f g h i c. (c, p.1, ground (arith, f, g, h, i))))

  pub sync_rx-Gives :
      (b : Buf) (o n : ℕ)
      → b ≡ rx
      → Gives size (Coherent size) (RxOwned size o) (udmabuf_sync_for_cpu env b o n)
  unfolding udmabuf_sync_for_cpu
  sync_rx-Gives b o n e =
      subst (λ b. Gives size (Coherent size) (RxOwned size o) (udmabuf_sync_for_cpu env b o n))
        (sym e)
        (sync-Gives (udmabuf_sync_for_cpu env rx o n) rx o n 2 sync_for_cpu (Coherent size)
          (RxOwned size o) refl (λ t c. c) (for_cpu-Coherent rx o n)
          (λ t w x y z p f g h i c. (c, ground (arith, f, g, h, i))))

  -- The CPU reads the rx buffer from where it owns it.
  pub region-RxOwned :
      (r : DmabufRegion) (off len : ℕ)
      → r.b.buf ≡ rx
      → Keeps (Stays (RxOwned size r.off)) (region_bytes env r off len)
  unfolding region_bytes
  region-RxOwned r off len e = record {
    runs = λ t p.
        subst (λ b. RxOwned size r.off (mem_read b (r.off + off) len ∷ t)) (sym e)
          ((ground (arith, p.1), p.0), p.1);
  }

-- Any register of the engine may be written when all is flushed.
dma_write : (size i v : ℕ) (t : Trace) → AllFlushed size t → AllFlushed size (reg_write dma i v ∷ t)
dma_write size i v t (c, p, d) = elim (Bool-cases (is_tail i)) [
  | inl tail ↦ rw tail ((p, d, c), p, d)
  | inr other ↦ rw other (c, p, d)
]

uio_wr-AllFlushed : (size off v : ℕ) → Keeps (Stays (AllFlushed size)) (uio_wr dma off v)
unfolding uio_wr
uio_wr-AllFlushed size off v = record { runs = λ t. dma_write size (off / 4) v t }

pub start-AllFlushed :
    (size chan : ℕ) (ring : AxidmaRing)
    → Keeps (Stays (AllFlushed size)) (axidma_sg_start chan ring)
unfolding axidma_sg_start
start-AllFlushed size chan ring =
    let pre = (AllFlushed-IsCalm size).pre in
    Keeps-if (ring.count == 0) (Keeps-pure pre _) (
      Keeps-bind pre (uio_wr-AllFlushed size _ _) (λ _.
        Keeps-bind pre (uio_wr-AllFlushed size _ _) (λ _.
          Keeps-bind pre (uio_wr-AllFlushed size _ _) (λ _.
            Keeps-bind pre (uio_wr-AllFlushed size _ _) (λ _.
              Keeps-bind pre (uio_wr-AllFlushed size _ _)
                (λ _. Keeps-bind pre (uio_wr-AllFlushed size _ _) (λ _. Keeps-pure pre _)))))))
