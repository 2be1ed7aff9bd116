-- ===== src/AxiDma/Ring/Frame.antt =====
-- The packet marks and the next-pointers of a ring.
use open_jls_demos.Prelude.{
  ℕ, zero, suc, ◌+◌, ◌-◌, ◌*◌, ◌^◌, ◌<◌, ◌≡◌, Bool, ◌&&◌, List, [], ◌∷◌, u64, refl, arith, ◌==◌,
  test_bit, if◌then◌else◌,
}
use open_jls_demos.World.Desc.{AxidmaDesc}
use open_jls_demos.AxiDma.{desc_size, sof_bit, eof_bit}
use open_jls_demos.AxiDma.Ring.{ring_desc, round_len, next_desc, ring_loop}

-- What the descriptor at index `i` of `count` says beside its buffer.
pub record IsLinked (phys count : ℕ) (frame : Bool) (i : ℕ) (d : AxidmaDesc) : Type 0 where
  pub first : test_bit d.control sof_bit ≡ (frame && i == 0)
  pub last : test_bit d.control eof_bit ≡ (frame && i == count - 1)
  pub next :
      d.nxtdesc + d.nxtdesc_msb * 2 ^ 32
      ≡ (if i == count - 1 then phys else phys + (i + 1) * desc_size)
  pub fresh : d.status ≡ 0

-- So from index `i` on, up to the end of the ring.
abbrev pub AllLinked : ℕ → ℕ → Bool → ℕ → List AxidmaDesc → Type 0
AllLinked phys count frame i [] = i ≡ count
AllLinked phys count frame i (d ∷ ds) =
    IsLinked phys count frame i d × AllLinked phys count frame (i + 1) ds

ring_desc_marks :
    (phys count i : ℕ) (frame : Bool) (this_len addr next : ℕ)
    → (test_bit (ring_desc phys count i frame this_len addr next).control sof_bit
        ≡ (frame && i == 0))
      × (test_bit (ring_desc phys count i frame this_len addr next).control eof_bit
          ≡ (frame && i == count - 1))
unfolding ring_desc
ring_desc_marks phys count i frame this_len addr next = ground arith

next_desc_lem :
    (phys count i : ℕ)
    → i < count
    → phys + count * desc_size < 2 ^ 64
    → next_desc phys count i ≡ (if i == count - 1 then phys else phys + (i + 1) * desc_size)
next_desc_lem phys count i h w = ground arith

ring_desc-IsLinked :
    (phys count i : ℕ) (frame : Bool) (this_len addr : ℕ)
    → i < count
    → phys + count * desc_size < 2 ^ 64
    → IsLinked phys count frame i
        (ring_desc phys count i frame this_len addr (next_desc phys count i))
unfolding ring_desc
ring_desc-IsLinked phys count i frame this_len addr h w = record {
  first = (ring_desc_marks phys count i frame this_len addr (next_desc phys count i)).0;
  last = (ring_desc_marks phys count i frame this_len addr (next_desc phys count i)).1;
  next = ground arith;
  fresh = refl;
}

ring_loop-AllLinked :
    (n i phys count chunk : ℕ) (frame : Bool) (remaining addr : ℕ)
    → i + n ≡ count
    → phys + count * desc_size < 2 ^ 64
    → AllLinked phys count frame i (ring_loop n i phys count chunk frame remaining addr)
unfolding ring_loop
ring_loop-AllLinked zero i phys count chunk frame remaining addr e w = omega arith
ring_loop-AllLinked (suc n) i phys count chunk frame remaining addr e w = (
  ring_desc-IsLinked phys count i frame (round_len chunk remaining) addr (omega arith) w,
  ring_loop-AllLinked n (i + 1) phys count chunk frame (remaining - round_len chunk remaining)
      (u64 (addr + round_len chunk remaining)) (omega arith) w,
)

-- In a ring of `count` descriptors at `phys` that ends below 2 ^ 64, the start mark stands on the
-- first descriptor and the end mark on the last if the ring is framed, and nowhere else; each
-- next-pointer leads to the descriptor after it, the last one's to the first; and no status is set.
pub ring_links :
    (count phys chunk : ℕ) (frame : Bool) (len buf_phys : ℕ)
    → phys + count * desc_size < 2 ^ 64
    → AllLinked phys count frame 0 (ring_loop count 0 phys count chunk frame len buf_phys)
ring_links count phys chunk frame len buf_phys w =
    ring_loop-AllLinked count 0 phys count chunk frame len buf_phys (omega arith) w
