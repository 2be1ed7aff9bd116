-- ===== src/World.antt =====
-- What the programs reach only by system calls and by mapped device memory. A run is the list of
-- the events so far, newest first, and the environment answers each access as a function of it.
pub mod Desc
pub mod Returns
pub mod Laws
pub mod Silent
pub mod Polls
pub mod System
pub mod Handles
pub mod Keeps
pub mod Tidy
use open_jls_demos.Prelude.{
  ℕ, zero, suc, ◌+◌, ◌*◌, ◌/◌, ◌%◌, ◌≤◌, ◌<◌, ◌≡◌, Bool, true, false, List, [], ◌∷◌, ◌++◌, Option,
  none, some, length, take, All, IsU8, ℤ,
}
use Desc.{AxidmaDesc}

-- The UIO devices: the core's register bank, the ready gate, the DMA engine.
pub data Dev : Type 0 where
  regs gate dma : Dev

-- The u-dma-buf buffers.
pub data Buf : Type 0 where
  tx rx desc : Buf

-- The sysfs attributes of a u-dma-buf that the program writes.
pub data Attr : Type 0 where
  sync_offset sync_size sync_direction sync_for_device sync_for_cpu : Attr

-- What `read` and `write` on a socket answer.
pub data ReadResult : Type 0 where
  got : List ℕ → ReadResult
  eof read_eintr read_error : ReadResult

pub data WriteResult : Type 0 where
  wrote : ℕ → WriteResult
  write_eintr write_error : WriteResult

-- What `poll` on a UIO device answers.
pub data PollResult : Type 0 where
  poll_ready poll_timeout poll_eintr poll_error : PollResult

-- Whether `fopen`, `fprintf` and `fclose` on a sysfs attribute go well.
pub record AttrIo : Type 0 where
  pub opened : Bool
  pub printed : Bool
  pub closed : Bool

-- What `accept` answers: the descriptor of a connection, or a failure.
pub data AcceptResult : Type 0 where
  accepted : ℕ → AcceptResult
  accept_eintr accept_error : AcceptResult

-- Whether `fopen` for writing, `fwrite` and `fclose` on a file go well.
pub record SaveIo : Type 0 where
  pub created : Bool
  pub filled : Bool
  pub flushed : Bool

-- Paths and names are lists of bytes.
pub data Event : Type 0 where
  reg_read : Dev → ℕ → ℕ → Event
  reg_write : Dev → ℕ → ℕ → Event
  clock_read : ℕ → Event
  slept : Event
  polled : PollResult → Event
  irq_counted : Bool → Event
  irq_enabled : Bool → Event
  attr_written : Buf → Attr → ℕ → AttrIo → Event
  desc_stored : ℕ → AxidmaDesc → Event
  status_read : ℕ → ℕ → Event
  mem_read : Buf → ℕ → ℕ → Event
  mem_stored : Buf → ℕ → List ℕ → Event
  sock_read : ℕ → ReadResult → Event
  sock_write : List ℕ → WriteResult → Event
  allocated : ℕ → Bool → Event
  file_read : List ℕ → Option (List ℕ) → Event
  dir_read : List ℕ → Option (List (List ℕ)) → Event
  opened : List ℕ → Option ℕ → Event
  mapped : ℕ → ℕ → Option ℕ → Event
  closed : ℕ → Event
  unmapped : ℕ → ℕ → Event
  resolved : List ℕ → ℤ → ℕ → Event
  socket_made : Option ℕ → Event
  connected : ℕ → Bool → Event
  listening : ℕ → ℕ → Bool → Event
  accept_done : AcceptResult → Event
  stop_tested : Bool → Event
  saved : List ℕ → List ℕ → SaveIo → Event

abbrev pub Trace : Type 0
Trace = List Event

-- Registers by word index, the monotonic clock in nanoseconds, the interrupt file of the DMA
-- device, sysfs, the status word of the descriptor at a byte offset of the descriptor buffer, the
-- bytes of a buffer, the socket, and the allocator. Then the content of a file that can be opened,
-- the entries of a directory, `open` on a device, `mmap`, the number of addresses of a host (0 if
-- it cannot be resolved), `socket`, `connect`, `bind` with `listen`, `accept`, the flag that the
-- signal handler sets, and the writing of a whole file.
pub record Env : Type 0 where
  pub reg : Trace → Dev → ℕ → ℕ
  pub clock : Trace → ℕ
  pub poll : Trace → PollResult
  pub irq_count : Trace → Bool
  pub irq_enable : Trace → Bool
  pub attr_io : Trace → Buf → Attr → ℕ → AttrIo
  pub status : Trace → ℕ → ℕ
  pub byte : Trace → Buf → ℕ → ℕ
  pub read : Trace → ℕ → ReadResult
  pub write : Trace → List ℕ → WriteResult
  pub alloc : Trace → ℕ → Bool
  pub file : Trace → List ℕ → Option (List ℕ)
  pub dir : Trace → List ℕ → Option (List (List ℕ))
  pub open_dev : Trace → List ℕ → Option ℕ
  pub mmap : Trace → ℕ → ℕ → Option ℕ
  pub resolve : Trace → List ℕ → ℤ → ℕ
  pub socket : Trace → Option ℕ
  pub connect : Trace → ℕ → Bool
  pub bind_listen : Trace → ℕ → ℕ → Bool
  pub accept : Trace → AcceptResult
  pub stop : Trace → Bool
  pub save : Trace → List ℕ → List ℕ → SaveIo

-- `none` means that the fuel of a loop ran out.
abbrev pub M : Type 0 → Type 0
M A = Trace → Option (A × Trace)

abbrev pub pure : {A : Type 0} → A → M A
pure a t = some (a, t)

infixl 5 ◌>>=◌ ◌>>◌
abbrev pub ◌>>=◌ : {A B : Type 0} → M A → (A → M B) → M B
◌>>=◌ m f t = elim (m t) [ none ↦ none | some (a, t') ↦ f a t' ]

abbrev pub ◌>>◌ : {B : Type 0} → M (Unit {0}) → M B → M B
m >> k = m >>= λ _. k

abbrev pub emit : Event → M (Unit {0})
emit e t = some (tt, e ∷ t)

-- CLOCK_MONOTONIC with a nanosecond between any event and the next.
abbrev pub ClockAdvances : Env → Type 0
ClockAdvances env = (t : Trace) (e : Event) → env.clock t + 1 ≤ env.clock (e ∷ t)

-- read(2): a positive result is at most what was asked for, and the data are bytes.
abbrev pub ReadLaw : Env → Type 0
ReadLaw env =
    (t : Trace) (n : ℕ) (bs : List ℕ)
    → env.read t n ≡ got bs
    → (1 ≤ length bs) × (length bs ≤ n) × All IsU8 bs

-- write(2) on a blocking socket, given bytes: some of them are taken, at most all.
abbrev pub WriteLaw : Env → Type 0
WriteLaw env =
    (t : Trace) (bs : List ℕ) (n : ℕ) → env.write t bs ≡ wrote n → (1 ≤ n) × (n ≤ length bs)

-- The bytes that the program has read from the socket, and those that it has sent.
abbrev pub received : Trace → List ℕ
received [] = []
received (sock_read _ (got bs) ∷ t) = received t ++ bs
received (_ ∷ t) = received t

abbrev pub sent : Trace → List ℕ
sent [] = []
sent (sock_write bs (wrote n) ∷ t) = sent t ++ take n bs
sent (_ ∷ t) = sent t

-- How many system calls a signal has interrupted.
abbrev pub interrupts : Trace → ℕ
interrupts [] = 0
interrupts (sock_read _ read_eintr ∷ t) = suc (interrupts t)
interrupts (sock_write _ write_eintr ∷ t) = suc (interrupts t)
interrupts (polled poll_eintr ∷ t) = suc (interrupts t)
interrupts (_ ∷ t) = interrupts t

-- No more than `k` calls are interrupted in the run.
pub record SignalBound (env : Env) (k : ℕ) : Type 0 where
  pub of_read : (t : Trace) (n : ℕ) → env.read t n ≡ read_eintr → interrupts t < k
  pub of_write : (t : Trace) (bs : List ℕ) → env.write t bs ≡ write_eintr → interrupts t < k
  pub of_poll : (t : Trace) → env.poll t ≡ poll_eintr → interrupts t < k
