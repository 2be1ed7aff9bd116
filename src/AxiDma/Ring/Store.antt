-- ===== src/AxiDma/Ring/Store.antt =====
-- When `axidma_ring_build` succeeds, and where it writes.
use open_jls_demos.Prelude.{
  ℕ, zero, suc, ◌+◌, ◌*◌, ◌%◌, ◌^◌, ◌≤◌, ◌<◌, ◌≡◌, ◌≢◌, Bool, List, [], ◌∷◌, ◌++◌, length, u64,
  refl, ap, arith, All, some, pos,
}
use open_jls_demos.World.{Event, desc_stored, Trace}
use open_jls_demos.World.Desc.{AxidmaDesc}
use open_jls_demos.Udmabuf.{Udmabuf}
use open_jls_demos.AxiDma.{desc_size, AxidmaRing}
use open_jls_demos.AxiDma.Ring.{ring_loop, store_descs, ring_chunks, axidma_ring_build}

-- The event is a store of a descriptor into the bytes from `lo` up to `hi`.
abbrev pub InRegion : ℕ → ℕ → Event → Type 0
InRegion lo hi (desc_stored o d) = (lo ≤ o) × (o + desc_size ≤ hi)
InRegion lo hi _ = ⊥

-- The descriptors in the order of the stores, newest first.
abbrev pub store_events : ℕ → List AxidmaDesc → Trace → Trace
store_events off [] t = t
store_events off (d ∷ ds) t = store_events (off + desc_size) ds (desc_stored off d ∷ t)

store_descs-some :
    (off : ℕ) (ds : List AxidmaDesc) (t : Trace)
    → store_descs off ds t ≡ some (tt, store_events off ds t)
unfolding store_descs
store_descs-some off [] t = refl
store_descs-some off (d ∷ ds) t = store_descs-some (off + desc_size) ds (desc_stored off d ∷ t)

store_events-InRegion :
    (lo hi off : ℕ) (ds : List AxidmaDesc) (evs t : Trace)
    → All (InRegion lo hi) evs
    → lo ≤ off
    → off + length ds * desc_size ≤ hi
    → (new : Trace) × (store_events off ds (evs ++ t) ≡ new ++ t) × All (InRegion lo hi) new
store_events-InRegion lo hi off [] evs t a h g = (evs, refl, a)
store_events-InRegion lo hi off (d ∷ ds) evs t a h g =
    store_events-InRegion lo hi (off + desc_size) ds (desc_stored off d ∷ evs) t
      ((h, omega arith), a) (omega arith) (omega arith)

length-ring_loop :
    (n i phys count chunk : ℕ) (frame : Bool) (remaining addr : ℕ)
    → length (ring_loop n i phys count chunk frame remaining addr) ≡ n
unfolding ring_loop
length-ring_loop zero i phys count chunk frame remaining addr = refl
length-ring_loop (suc n) i phys count chunk frame remaining addr =
    ap suc (length-ring_loop n _ phys count chunk frame _ _)

module _ (db : Udmabuf) (desc_off desc_cap buf_phys len chunk : ℕ) (frame : Bool) (t : Trace) where
  -- The ring that a successful call describes.
  abbrev pub built_ring : AxidmaRing
  built_ring = record {
    db = db;
    off = desc_off;
    phys = u64 (db.phys + desc_off);
    count = ring_chunks len chunk;
  }

  -- For a buffer that is not empty and a descriptor region that is 64-byte aligned, on both sides,
  -- and holds a descriptor for each chunk, `axidma_ring_build` returns 0 and the ring, and all that
  -- it does is to store descriptors inside that region.
  pub ring_build_fits :
      len ≢ 0
      → desc_off % 64 ≡ 0
      → u64 (db.phys + desc_off) % 64 ≡ 0
      → ring_chunks len chunk * desc_size ≤ desc_cap
      → desc_cap < 2 ^ 64
      → (new : Trace) × (axidma_ring_build db desc_off desc_cap buf_phys len chunk frame t
          ≡ some ((pos 0, some built_ring), new ++ t))
        × All (InRegion desc_off (desc_off + desc_cap)) new
  unfolding axidma_ring_build
  ring_build_fits h a b f w =
      let count = ring_chunks len chunk in
      let ds = ring_loop count 0 (u64 (db.phys + desc_off)) count chunk frame len buf_phys in
      let (new, e, inside) =
        store_events-InRegion desc_off (desc_off + desc_cap) desc_off ds [] t tt (omega arith) (
          omega (
            arith,
            length-ring_loop count 0 (u64 (db.phys + desc_off)) count chunk frame len buf_phys,
          )) in
      (new, ground (arith, e, store_descs-some desc_off ds t), inside)
