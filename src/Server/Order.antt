-- ===== src/Server/Order.antt =====
-- Who owns the buffers: when the engine may be started, and when the CPU may read what it wrote.
pub mod Leads
pub mod Syncs
pub mod Engine
pub mod Requests
use open_jls_demos.Prelude.{
  ℕ, ◌+◌, ◌≡◌, Bool, true, false, ◌&&◌, ◌||◌, List, [], ◌∷◌, Option, none, some, length, leb, ◌==◌,
  if◌then◌else◌,
}
use open_jls_demos.World.{
  Buf, tx, rx, desc, Dev, dma, Attr, sync_offset, sync_size, sync_direction, sync_for_device,
  sync_for_cpu, AttrIo, Event, reg_write, attr_written, desc_stored, mem_read, mem_stored, Trace,
}

abbrev pub is_buf : Buf → Buf → Bool
is_buf tx tx = true
is_buf rx rx = true
is_buf desc desc = true
is_buf a b = false

abbrev pub went_well : AttrIo → Bool
went_well io = io.opened && (io.printed && io.closed)

-- Word indices of the two tail pointers, which start the engine.
abbrev pub is_tail : ℕ → Bool
is_tail i = i == 4 || i == 16

abbrev pub is_staging : Attr → Attr → Bool
is_staging sync_offset sync_offset = true
is_staging sync_size sync_size = true
is_staging sync_direction sync_direction = true
is_staging a b = false

-- What the driver holds for a staged attribute of a buffer: the value last written, unless that
-- write failed.
abbrev pub staged : Buf → Attr → Trace → Option ℕ
staged b a [] = none
staged b a (attr_written c a' v io ∷ t) =
    let before = staged b a t in
    if is_buf b c && is_staging a a' then (if went_well io then some v else none) else before
staged b a (_ ∷ t) = staged b a t

-- Whether a direction and a range that are staged are the direction and cover the range wanted.
abbrev pub covers : ℕ → Option ℕ → Option ℕ → Option ℕ → Option (ℕ × ℕ) → Bool
covers dir (some d) (some o) (some n) (some (lo, len)) =
    d == dir && (leb o lo && leb (lo + len) (o + n))
covers dir d o n range = false

-- Whether a kick after `t` hands the range of the buffer to the device.
abbrev pub reaches : Buf → Trace → Option (ℕ × ℕ) → Bool
reaches b t = covers 1 (staged b sync_direction t) (staged b sync_offset t) (staged b sync_size t)

-- Offset and length of the payload that the CPU stored last in the tx buffer.
abbrev pub last_stored : Trace → Option (ℕ × ℕ)
last_stored [] = none
last_stored (mem_stored tx o bs ∷ t) = some (o, length bs)
last_stored (_ ∷ t) = last_stored t

-- Whether the payload stored last was handed to the device, all of it.
abbrev pub pixels_flushed : Trace → Bool
pixels_flushed [] = false
pixels_flushed (mem_stored tx o bs ∷ t) = false
pixels_flushed (attr_written tx sync_for_device v io ∷ t) =
    let before = pixels_flushed t in
    if went_well io && reaches tx t (last_stored t) then true else before
pixels_flushed (_ ∷ t) = pixels_flushed t

-- Whether the descriptor buffer, `size` bytes from its start, was handed to the device since the
-- last descriptor was stored.
abbrev pub descs_flushed : ℕ → Trace → Bool
descs_flushed size [] = false
descs_flushed size (desc_stored o d ∷ t) = false
descs_flushed size (attr_written desc sync_for_device v io ∷ t) =
    let before = descs_flushed size t in
    if went_well io && reaches desc t (some (0, size)) then true else before
descs_flushed size (_ ∷ t) = descs_flushed size t

-- The offset that is staged, if the direction is that to the CPU.
abbrev pub to_cpu : Option ℕ → Option ℕ → Option ℕ
to_cpu none o = none
to_cpu (some d) o = if d == 2 then o else none

-- From which offset on the rx buffer was handed to the CPU since the engine was last started.
abbrev pub owned_from : Trace → Option ℕ
owned_from [] = none
owned_from (reg_write dma i v ∷ t) = let before = owned_from t in if is_tail i then none else before
owned_from (attr_written rx sync_for_cpu v io ∷ t) =
    let before = owned_from t in
    if went_well io then to_cpu (staged rx sync_direction t) (staged rx sync_offset t) else before
owned_from (_ ∷ t) = owned_from t

abbrev pub from_or_after : Option ℕ → ℕ → Bool
from_or_after none o = false
from_or_after (some lo) o = leb lo o

-- The engine was started only with the descriptor buffer and the last payload flushed, and the rx
-- buffer read only from where the CPU owned it.
abbrev pub Coherent : ℕ → Trace → Type 0
Coherent size [] = Unit
Coherent size (mem_read rx o n ∷ t) = (from_or_after (owned_from t) o ≡ true) × Coherent size t
Coherent size (reg_write dma i v ∷ t) =
    let before = Coherent size t in
    if is_tail i then (pixels_flushed t ≡ true) × (descs_flushed size t ≡ true) × before else before
Coherent size (_ ∷ t) = Coherent size t
