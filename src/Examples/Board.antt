-- ===== src/Examples/Board.antt =====
-- A board whose engine is done at once, and a peer that sends its bytes one at a time. The signal
-- to stop comes after one connection.
use open_jls_demos.Prelude.{
  ℕ, zero, suc, Option, none, some, codes, str_eq, ◌+◌, ◌%◌, ◌^◌, ◌≤◌, ◌≡◌, true, List, [], ◌∷◌,
  length, get_or, ltb, leb, ◌==◌, if◌then◌else◌, All, IsU8, arith,
}
use open_jls_demos.World.{
  Env, Dev, regs, gate, reg_write, Trace, accepted, tx, rx, desc, poll_ready, ReadResult, got, eof,
  read_eintr, write_eintr, WriteResult, wrote, write_error, received,
}
use open_jls_demos.World.Laws.{Lawful}
use open_jls_demos.Server.{Hw}
use open_jls_demos.Server.Stream.Answer.{TransferBound}
use open_jls_demos.Server.Serve.Session.{FinitePeer}
use open_jls_demos.Server.Main.Accepting.{accepts, StopsBy}

-- What is read from the peer: the next byte of its stream, or EOF at its end.
abbrev pub next_read : List ℕ → Trace → ℕ → ReadResult
next_read script t zero = eof
next_read script t (suc n) =
    if ltb (length (received t)) (length script)
    then got ((get_or script (length (received t)) 0 % 256) ∷ [])
    else eof

abbrev pub next_write : List ℕ → WriteResult
next_write [] = write_error
next_write (b ∷ bs) = wrote 1

-- The core and the gate hold what was written to them; the engine is always idle.
abbrev last_written : Trace → Dev → ℕ → ℕ
last_written (reg_write regs i v ∷ t) regs j = if i == j then v else last_written t regs j
last_written (reg_write gate i v ∷ t) gate j = if i == j then v else last_written t gate j
last_written (_ ∷ t) d j = last_written t d j
last_written [] d j = 0

-- The core identifies itself: 8 bits, at most 64 x 64.
abbrev answered : Trace → Dev → ℕ → ℕ
answered t regs i =
    if i == 0
    then 0x4F4A_4C53
    else if i == 2
    then 8
    else if i == 3
    then 0x40_0040
    else last_written t regs i
answered t d i = last_written t d i

-- `P5 #x`, `2 1 `, `1023 `, then two samples of two bytes.
abbrev pub pgm_file : List ℕ
pgm_file =
    80 ∷ 53 ∷ 32 ∷ 35 ∷ 120 ∷ 10 ∷ 50 ∷ 32 ∷ 49 ∷ 32 ∷ 49 ∷ 48 ∷ 50 ∷ 51 ∷ 10 ∷ 3 ∷ 255 ∷ 0 ∷ 1 ∷ []

-- The three UIO devices by their names, an image, and 64 KiB for any other size.
abbrev pub entries : List (List ℕ)
entries = codes "." ∷ codes "uio0" ∷ codes "uio1" ∷ codes "uio2" ∷ []

abbrev pub content : List ℕ → Option (List ℕ)
content path =
    if str_eq path (codes "/sys/class/uio/uio0/name")
    then some (codes "openjls\n")
    else if str_eq path (codes "/sys/class/uio/uio1/name")
    then some (codes "axi-dma\n")
    else if str_eq path (codes "/sys/class/uio/uio2/name")
    then some (codes "ready_gate\n")
    else if str_eq path (codes "a.pgm")
    then some pgm_file
    else some (codes "0x10000\n")

abbrev pub board : List ℕ → Env
board script = record {
  reg = answered;
  clock = λ t. length t;
  poll = λ t. poll_ready;
  irq_count = λ t. true;
  irq_enable = λ t. true;
  attr_io = λ t b a v. record { opened = true; printed = true; closed = true };
  status = λ t o. 2 ^ 31 + 2 ^ 26 + 4;
  byte = λ t b o. 7;
  read = next_read script;
  write = λ t bs. next_write bs;
  alloc = λ t n. true;
  file = λ t path. content path;
  dir = λ t path. some entries;
  open_dev = λ t path. some 4;
  mmap = λ t size fd. some 0x7000;
  resolve = λ t host port. 1;
  socket = λ t. some 3;
  connect = λ t fd. true;
  bind_listen = λ t fd port. true;
  accept = λ t. accepted 5;
  stop = λ t. leb 1 (accepts t);
  save = λ t path bytes. record { created = true; filled = true; flushed = true };
}

-- The events of a run.
abbrev pub trace_of : {A : Type 0} → Option (A × Trace) → Trace
trace_of none = []
trace_of (some (a, t)) = t

next_read_lem :
    (script : List ℕ) (t : Trace) (n : ℕ) (bs : List ℕ)
    → next_read script t n ≡ got bs
    → (1 ≤ length bs) × (length bs ≤ n) × All IsU8 bs
next_read_lem script t zero bs e = cc
next_read_lem script t (suc n) [] e = ground arith
next_read_lem script t (suc n) (b ∷ []) e = ground arith
next_read_lem script t (suc n) (b ∷ c ∷ bs) e = ground arith

pub board-FinitePeer : (script : List ℕ) → FinitePeer (board script) (length script)
board-FinitePeer script t zero bs e = cc
board-FinitePeer script t (suc n) [] e = ground arith
board-FinitePeer script t (suc n) (b ∷ []) e = ground arith
board-FinitePeer script t (suc n) (b ∷ c ∷ bs) e = ground arith

pub board-StopsBy : (script : List ℕ) → StopsBy (board script) 1
board-StopsBy script t h = ground arith

pub board-TransferBound : (script : List ℕ) → TransferBound (board script) 4
board-TransferBound script t o = omega arith

next_write_lem : (bs : List ℕ) (n : ℕ) → next_write bs ≡ wrote n → (1 ≤ n) × (n ≤ length bs)
next_write_lem [] n e = cc
next_write_lem (b ∷ bs) n e = ground arith

read_steady : (script : List ℕ) (t : Trace) (n : ℕ) → ¬ (next_read script t n ≡ read_eintr)
read_steady script t zero e = cc
read_steady script t (suc n) e = ground arith

write_steady : (bs : List ℕ) → ¬ (next_write bs ≡ write_eintr)
write_steady [] e = cc
write_steady (b ∷ bs) e = cc

pub board-Lawful : (script : List ℕ) → Lawful (board script) 0
board-Lawful script = record {
  reads = next_read_lem script;
  writes = λ t bs n e. next_write_lem bs n e;
  signals = record {
    of_read = λ t n e. absurd (read_steady script t n e);
    of_write = λ t bs e. absurd (write_steady bs e);
    of_poll = λ t e. cc;
  };
  clock = λ t e. omega arith;
  words = λ t o. omega arith;
  memory = λ t b o. omega arith;
}

-- A board with an 8-bit core of at most 64 x 64, and buffers of 1 MiB, 1 MiB and 64 KiB.
abbrev pub small_hw : Hw
small_hw = record {
  irq_ok = true;
  desc_buf = record { buf = desc; size = 0x1_0000; phys = 0x1800_0000 };
  tx = record {
    b = record { buf = tx; size = 0x10_0000; phys = 0x1000_0000 };
    off = 0;
    size = 0x10_0000;
  };
  rx = record {
    b = record { buf = rx; size = 0x10_0000; phys = 0x1400_0000 };
    off = 0;
    size = 0x10_0000;
  };
  bitness = 8;
  max_width = 64;
  max_height = 64;
}
