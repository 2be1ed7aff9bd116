-- ===== src/Client/Files.antt =====
-- Software/host/ojls_client.c: images read from files, and bitstreams written to files.
use open_jls_demos.Prelude.{
  ℕ, ◌&&◌, List, ◌∷◌, ◌++◌, Option, none, some, take, if◌then◌else◌, ℤ, pos, negsuc, codes,
  before_last, after_last,
}
use open_jls_demos.World.{Env, M, pure, ◌>>=◌}
use open_jls_demos.World.System.{sys_file, sys_save}
use open_jls_demos.Client.{Image}
use open_jls_demos.Client.Pgm.{pgm_load}

unfoldable pub parse_file : Env → Option (List ℕ) → M (Option Image)
parse_file env none t = some (none, t)
parse_file env (some bytes) t = some (pgm_load (env.alloc t) bytes, t)

-- `pgm_load(path, &img)`, from `fopen` on
unfoldable pub load_path : Env → List ℕ → M (Option Image)
load_path env path = sys_file env path >>= parse_file env

abbrev pub or_else : Option (List ℕ) → List ℕ → List ℕ
or_else none s = s
or_else (some r) s = r

-- The text up to the last dot.
unfoldable pub stem : List ℕ → List ℕ
stem s = or_else (before_last 46 s) s

-- The text behind the last slash.
unfoldable pub base_name : List ℕ → List ℕ
base_name path = or_else (after_last 47 path) path

-- The path of a bitstream, as `snprintf` leaves it in 4096 bytes.
unfoldable pub jls_path : List ℕ → List ℕ → List ℕ
jls_path dir in_path = take 4095 (dir ++ (47 ∷ (stem (base_name in_path) ++ codes ".jls")))

unfoldable pub write_jls : Env → List ℕ → List ℕ → List ℕ → M ℤ
write_jls env dir in_path bytes = do
  io ← sys_save env (jls_path dir in_path) bytes
  pure (if io.created && io.filled && io.flushed then pos 0 else negsuc 0)

-- The path of `main` without an output: `out_buf`.
unfoldable pub default_out : List ℕ → List ℕ
default_out in_path = take 4095 (stem in_path ++ codes ".jls")

-- The file that `main` writes; the result of `fclose` is dropped.
unfoldable pub save_result : Env → List ℕ → List ℕ → M ℤ
save_result env out_path bytes = do
  io ← sys_save env out_path bytes
  pure (if io.created && io.filled then pos 0 else pos 1)
