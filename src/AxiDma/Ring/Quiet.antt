-- ===== src/AxiDma/Ring/Quiet.antt =====
-- Building and starting a ring leave the socket alone.
use open_jls_demos.Prelude.{
  ℕ, ◌+◌, ◌%◌, refl, Bool, List, [], ◌∷◌, pos, negsuc, u64, ltb, ◌==◌, ◌!=◌, ◌||◌, ◌*◌,
}
use open_jls_demos.World.{Env, desc_stored, dma}
use open_jls_demos.World.Desc.{AxidmaDesc}
use open_jls_demos.World.Laws.{Lawful}
use open_jls_demos.World.Silent.{Silent, Silent-pure, Silent-bind, Silent-if, Silent-emit}
use open_jls_demos.Uio.Quiet.{uio_wr-Silent}
use open_jls_demos.Udmabuf.{Udmabuf}
use open_jls_demos.AxiDma.{
  AxidmaRing, axidma_sg_start, desc_size, dma_curdesc, dma_curdesc_msb, dma_cr, dma_sr,
  dma_taildesc, dma_taildesc_msb, cr_run, sr_clear,
}
use open_jls_demos.AxiDma.Ring.{store_descs, ring_chunks, axidma_ring_build}

module _ {env : Env} {k : ℕ} (law : Lawful env k) where
  store_descs-Silent : (off : ℕ) (ds : List AxidmaDesc) → Silent env (store_descs off ds)
  unfolding store_descs
  store_descs-Silent off [] = Silent-pure tt
  store_descs-Silent off (d ∷ ds) =
      Silent-bind (Silent-emit law.clock (desc_stored off d) (λ u. (refl, refl)))
        (λ _. store_descs-Silent (off + desc_size) ds)

  pub ring_build-Silent :
      (db : Udmabuf) (desc_off desc_cap buf_phys len chunk : ℕ) (frame : Bool)
      → Silent env (axidma_ring_build db desc_off desc_cap buf_phys len chunk frame)
  unfolding axidma_ring_build
  ring_build-Silent db desc_off desc_cap buf_phys len chunk frame =
      Silent-if (len == 0) (Silent-pure _) (
        Silent-if (desc_off % 64 != 0 || u64 (db.phys + desc_off) % 64 != 0) (Silent-pure _) (
          Silent-if (ltb desc_cap (u64 (ring_chunks len chunk * desc_size))) (Silent-pure _)
            (Silent-bind (store_descs-Silent desc_off _) (λ _. Silent-pure _))))

  pub sg_start-Silent : (chan : ℕ) (ring : AxidmaRing) → Silent env (axidma_sg_start chan ring)
  unfolding axidma_sg_start
  sg_start-Silent chan ring = Silent-if (ring.count == 0) (Silent-pure (negsuc 0)) (
      Silent-bind (uio_wr-Silent law dma (dma_curdesc chan) _) (λ _.
        Silent-bind (uio_wr-Silent law dma (dma_curdesc_msb chan) _) (λ _.
          Silent-bind (uio_wr-Silent law dma (dma_cr chan) cr_run) (λ _.
            Silent-bind (uio_wr-Silent law dma (dma_sr chan) sr_clear) (λ _.
              Silent-bind (uio_wr-Silent law dma (dma_taildesc_msb chan) _) (λ _.
                Silent-bind (uio_wr-Silent law dma (dma_taildesc chan) _)
                  (λ _. Silent-pure (pos 0))))))))
