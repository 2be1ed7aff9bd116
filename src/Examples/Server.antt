-- ===== src/Examples/Server.antt =====
-- The core's registers.
use open_jls_demos.Prelude.{[], ◌==◌, if◌then◌else◌, arith}
use open_jls_demos.World.{Env}
use open_jls_demos.World.Returns.{Returns}
use open_jls_demos.World.Laws.{Lawful}
use open_jls_demos.Server.{hw_configure}
use open_jls_demos.Server.Configure.{ConfigEnd, hw_configure_total}
use open_jls_demos.Examples.Board.{board, board-Lawful}

-- A core that holds the dimensions 4 x 2 and is not busy.
abbrev core : Env
core = record (board []) { reg = λ t d i. if i == 4 then 4 else if i == 5 then 2 else 0 }

core-Lawful : Lawful core 0
core-Lawful =
    let law = board-Lawful [] in
    record {
      reads = law.reads;
      writes = law.writes;
      signals = record {
        of_read = law.signals.of_read;
        of_write = law.signals.of_write;
        of_poll = law.signals.of_poll;
      };
      clock = law.clock;
      words = law.words;
      memory = law.memory;
    }

hw_configure_total_example : Returns (hw_configure 200_000_000 core 4 2 []) (ConfigEnd core 4 2 [])
hw_configure_total_example = hw_configure_total 200_000_000 4 2 [] core-Lawful (omega arith)
