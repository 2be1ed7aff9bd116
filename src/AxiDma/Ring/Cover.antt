-- ===== src/AxiDma/Ring/Cover.antt =====
-- The descriptors of a ring cover the data buffer from end to end.
use open_jls_demos.Prelude.{
  ℕ, zero, suc, ◌+◌, ◌-◌, ◌*◌, ◌^◌, ◌≤◌, ◌<◌, ◌≡◌, Bool, List, [], ◌∷◌, u64, ◌∙◌, arith,
}
use native.Mathlib.Nat.{suc-mul, div-add-mod, mod-lt}
use open_jls_demos.World.Desc.{AxidmaDesc}
use open_jls_demos.AxiDma.{desc_len}
use open_jls_demos.AxiDma.Ring.{ring_desc, round_len, next_desc, ring_loop, ring_chunks}

-- The bus address in a descriptor.
abbrev pub desc_addr : AxidmaDesc → ℕ
desc_addr d = d.buffer_addr + d.buffer_msb * 2 ^ 32

-- The buffers of the descriptors follow one another from `addr` on, none is empty or above
-- `chunk`, and together they are `len` bytes.
abbrev pub Tiles : ℕ → ℕ → ℕ → List AxidmaDesc → Type 0
Tiles chunk addr len [] = len ≡ 0
Tiles chunk addr len (d ∷ ds) =
    (desc_addr d ≡ addr)
    × (1 ≤ desc_len d.control)
    × (desc_len d.control ≤ chunk)
    × (desc_len d.control ≤ len)
    × Tiles chunk (addr + desc_len d.control) (len - desc_len d.control) ds

ring_desc-len :
    (phys count i : ℕ) (frame : Bool) (this_len addr next : ℕ)
    → desc_len (ring_desc phys count i frame this_len addr next).control ≡ desc_len this_len
unfolding ring_desc
ring_desc-len phys count i frame this_len addr next = ground arith

ring_desc-addr :
    (phys count i : ℕ) (frame : Bool) (this_len addr next : ℕ)
    → addr < 2 ^ 64
    → desc_addr (ring_desc phys count i frame this_len addr next) ≡ addr
unfolding ring_desc
ring_desc-addr phys count i frame this_len addr next h = omega arith

-- The number of chunks is the length over the chunk, rounded up.
pub ring_chunks_bounds :
    (len chunk : ℕ)
    → 1 ≤ len
    → 1 ≤ chunk
    → len + chunk < 2 ^ 64
    → (len ≤ ring_chunks len chunk * chunk) × (ring_chunks len chunk * chunk < len + chunk)
unfolding ring_chunks
ring_chunks_bounds len chunk h g f =
    let e : u64 (len + chunk - 1) ≡ len + chunk - 1 = omega arith in
    rw e
      (omega (arith, div-add-mod (len + chunk - 1) chunk, mod-lt (len + chunk - 1) {m = chunk} g))

round_len_bounds :
    (chunk remaining n : ℕ)
    → 1 ≤ chunk
    → chunk < 2 ^ 26
    → n * chunk < remaining
    → remaining ≤ suc n * chunk
    → (desc_len (round_len chunk remaining) ≡ round_len chunk remaining)
      × (1 ≤ round_len chunk remaining)
      × (round_len chunk remaining ≤ chunk)
      × (round_len chunk remaining ≤ remaining)
      × (remaining - round_len chunk remaining ≤ n * chunk)
      × (n * chunk < remaining - round_len chunk remaining + chunk)
round_len_bounds chunk remaining n h g a b = ground (arith, suc-mul n chunk)

Tiles-cons :
    (chunk addr len l : ℕ) (d : AxidmaDesc) (ds : List AxidmaDesc)
    → desc_addr d ≡ addr
    → desc_len d.control ≡ l
    → 1 ≤ l
    → l ≤ chunk
    → l ≤ len
    → Tiles chunk (u64 (addr + l)) (len - l) ds
    → addr + len < 2 ^ 64
    → Tiles chunk addr len (d ∷ ds)
Tiles-cons chunk addr len l d ds a e one fits more rest small =
    let wide : u64 (addr + l) ≡ addr + l = omega arith in rw e (a, one, fits, more, rw wide at rest)

pub ring_loop-Tiles :
    (n i phys count chunk : ℕ) (frame : Bool) (remaining addr : ℕ)
    → 1 ≤ chunk
    → chunk < 2 ^ 26
    → remaining ≤ n * chunk
    → n * chunk < remaining + chunk
    → addr + remaining < 2 ^ 64
    → Tiles chunk addr remaining (ring_loop n i phys count chunk frame remaining addr)
unfolding ring_loop
ring_loop-Tiles zero i phys count chunk frame remaining addr h g a b f = omega arith
ring_loop-Tiles (suc n) i phys count chunk frame remaining addr h g a b f =
    let (whole, one, fits, more, after, last) =
      round_len_bounds chunk remaining n h g (omega (arith, suc-mul n chunk)) a in
    let l : ℕ = round_len chunk remaining in
    Tiles-cons chunk addr remaining l (ring_desc phys count i frame l addr (next_desc phys count i))
      _ (ring_desc-addr phys count i frame l addr _ (omega arith))
      (ring_desc-len phys count i frame l addr _ ∙ whole) one fits more
      (ring_loop-Tiles n (i + 1) phys count chunk frame (remaining - l) (u64 (addr + l)) h g after
        last (omega arith))
      f

-- The descriptors that `axidma_ring_build` writes for a buffer of `len` bytes at `buf_phys`, with
-- a chunk that fits the 26-bit length field and no wrap of the address, tile the buffer: each
-- starts where the one before ends, none is empty or longer than the chunk, and the lengths add
-- up to `len`.
pub ring_covers :
    (phys chunk len buf_phys : ℕ) (frame : Bool)
    → 1 ≤ len
    → 1 ≤ chunk
    → chunk < 2 ^ 26
    → len + chunk < 2 ^ 64
    → buf_phys + len < 2 ^ 64
    → Tiles chunk buf_phys len
        (ring_loop (ring_chunks len chunk) 0 phys (ring_chunks len chunk) chunk frame len buf_phys)
ring_covers phys chunk len buf_phys frame one h g f w =
    let (up, down) = ring_chunks_bounds len chunk one h f in
    ring_loop-Tiles (ring_chunks len chunk) 0 phys _ chunk frame len buf_phys h g up down w
