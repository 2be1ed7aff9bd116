-- ===== src/AxiDma/Ring.antt =====
-- Software/src/axidma.c: the descriptor ring that `axidma_ring_build` writes.
pub mod Cover
pub mod Frame
pub mod Store
pub mod Quiet
use open_jls_demos.Prelude.{
  ℕ, zero, suc, ◌+◌, ◌-◌, ◌*◌, ◌/◌, ◌%◌, ◌^◌, Bool, ◌||◌, List, [], ◌∷◌, Option, none, some, u32,
  u64, set_bit, ltb, ◌==◌, ◌!=◌, if◌then◌else◌, ℤ, pos, negsuc,
}
use open_jls_demos.World.{desc_stored, M, pure, emit, ◌>>◌}
use open_jls_demos.World.Desc.{AxidmaDesc}
use open_jls_demos.Udmabuf.{Udmabuf}
use open_jls_demos.AxiDma.{desc_len, eof_bit, sof_bit, desc_size, AxidmaRing}

-- The descriptor that round `i` of the loop of `axidma_ring_build` writes.
unfoldable pub ring_desc : ℕ → ℕ → ℕ → Bool → ℕ → ℕ → ℕ → AxidmaDesc
ring_desc phys count i frame this_len addr next =
    let ctrl = desc_len this_len in
    let ctrl' = (if i == 0 then set_bit ctrl sof_bit else ctrl) in
    record {
      nxtdesc = u32 next;
      nxtdesc_msb = u32 (next / 2 ^ 32);
      buffer_addr = u32 addr;
      buffer_msb = u32 (addr / 2 ^ 32);
      control = if frame then (if i == count - 1 then set_bit ctrl' eof_bit else ctrl') else ctrl;
      status = 0;
    }

-- `this_len` and `next` of a round.
abbrev pub round_len : ℕ → ℕ → ℕ
round_len chunk remaining = if ltb chunk remaining then chunk else u32 remaining

abbrev pub next_desc : ℕ → ℕ → ℕ → ℕ
next_desc phys count i = if i == count - 1 then phys else u64 (phys + u64 ((i + 1) * desc_size))

-- The loop of `axidma_ring_build`: `n` rounds are left.
unfoldable pub ring_loop : ℕ → ℕ → ℕ → ℕ → ℕ → Bool → ℕ → ℕ → List AxidmaDesc
ring_loop zero i phys count chunk frame remaining addr = []
ring_loop (suc n) i phys count chunk frame remaining addr =
    let this_len = round_len chunk remaining in
    ring_desc phys count i frame this_len addr (next_desc phys count i)
    ∷ ring_loop n (i + 1) phys count chunk frame (remaining - this_len) (u64 (addr + this_len))

-- The stores into the ring, one descriptor after the other; nothing is read between them.
unfoldable pub store_descs : ℕ → List AxidmaDesc → M (Unit {0})
store_descs off [] = pure tt
store_descs off (d ∷ ds) = do emit (desc_stored off d); store_descs (off + desc_size) ds

unfoldable pub ring_chunks : ℕ → ℕ → ℕ
ring_chunks len chunk = u64 (len + chunk - 1) / chunk

-- The ring is returned beside the code; a failure leaves it as it was, here `none`. The count is not
-- narrowed to an int: the capacity, a 32-bit size, bounds it unless the size of the descriptors
-- wraps at 2 ^ 64, which takes far longer buffers than the 32-bit lengths of a request.
unfoldable pub axidma_ring_build : Udmabuf → ℕ → ℕ → ℕ → ℕ → ℕ → Bool → M (ℤ × Option AxidmaRing)
axidma_ring_build db desc_off desc_cap buf_phys len chunk frame =
    if len == 0
    then pure (negsuc 0, none)
    else if desc_off % 64 != 0 || u64 (db.phys + desc_off) % 64 != 0
    then pure (negsuc 0, none)
    else if ltb desc_cap (u64 (ring_chunks len chunk * desc_size))
    then pure (negsuc 0, none)
    else (do
      let phys = u64 (db.phys + desc_off)
      let count = ring_chunks len chunk
      store_descs desc_off (ring_loop count 0 phys count chunk frame len buf_phys)
      pure (pos 0, some (record { db = db; off = desc_off; phys = phys; count = count })))
