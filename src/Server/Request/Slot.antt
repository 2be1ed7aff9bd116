-- ===== src/Server/Request/Slot.antt =====
-- The slot of an image in the rx buffer, and the number of descriptors of a stream.
use open_jls_demos.Prelude.{ℕ, ◌+◌, ◌*◌, ◌/◌, ◌%◌, ◌^◌, ◌≤◌, ◌<◌, ◌≡◌, arith}
use native.Mathlib.Nat.{suc-mul}
use open_jls_demos.AxiDma.Ring.{ring_chunks}
use open_jls_demos.AxiDma.Ring.Cover.{ring_chunks_bounds}
use open_jls_demos.Server.Request.{stream_slot_bytes}

-- Where the rounded sum fits 32 bits, the slot of an image is a multiple of the page, holds the
-- image with a quarter more and a page, and is less than a page longer than that.
pub stream_slot_bounds :
    (image_bytes : ℕ)
    → image_bytes + image_bytes / 4 + 8192 ≤ 2 ^ 32
    → (stream_slot_bytes image_bytes % 4096 ≡ 0)
      × (image_bytes + image_bytes / 4 + 4096 ≤ stream_slot_bytes image_bytes)
      × (stream_slot_bytes image_bytes < image_bytes + image_bytes / 4 + 8192)
unfolding stream_slot_bytes
stream_slot_bounds b h = omega arith

-- An upper and a lower bound by multiples determine the quotient.
count_unique :
    (n count slot : ℕ)
    → 1 ≤ slot
    → count * slot ≤ n * slot
    → n * slot < count * slot + slot
    → n ≡ count
count_unique n count slot h a b = grind (arith, suc-mul)

-- A ring over `count` slots with the slot as its chunk has one descriptor for each image.
pub ring_chunks_slots :
    (slot count : ℕ)
    → 1 ≤ slot
    → 1 ≤ count
    → count * slot + slot < 2 ^ 64
    → ring_chunks (count * slot) slot ≡ count
ring_chunks_slots slot count h c w =
    let (up, down) = ring_chunks_bounds (count * slot) slot (grind arith) h w in
    count_unique (ring_chunks (count * slot) slot) count slot h up down
