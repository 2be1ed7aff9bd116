-- ===== src/Client/Main.antt =====
-- Software/host/ojls_client.c: `main`, its command line included.
pub mod Args
use open_jls_demos.Prelude.{
  ℕ, zero, suc, ◌*◌, ◌/◌, Bool, true, false, ◌||◌, ◌&&◌, not, List, [], ◌∷◌, Option, none, some,
  u32, ltb, ◌==◌, if◌then◌else◌, ℤ, pos, negsuc,
}
use open_jls_demos.World.{Env, M, pure, ◌>>=◌, ◌>>◌}
use open_jls_demos.World.System.{sys_close}
use open_jls_demos.Client.{Image}
use open_jls_demos.Client.Connect.{connect_host}
use open_jls_demos.Client.Encode.{encode_rounds}
use open_jls_demos.Client.Files.{load_path, or_else, default_out, save_result}
use open_jls_demos.Client.Stream.{run_stream, with_connection}
use Args.{ClientArgs, Parsed, leave, stream_of, single, parse_args, default_args}

-- A number that was checked to be above 0.
abbrev pub nat_of : ℤ → ℕ
nat_of (pos n) = n
nat_of (negsuc n) = 0

-- The bitness of the image, by the override, or `none` where they are incompatible.
unfoldable pub override_bitness : Image → ℤ → Option Image
override_bitness img (pos zero) = some img
override_bitness img (pos (suc n)) =
    if ltb (suc n) img.bitness
      || ltb 16 (suc n)
      || (img.bytes / u32 (img.width * img.height) == 1 && ltb 8 (suc n))
    then none
    else some (record img { bitness = suc n })
override_bitness img (negsuc n) = none

unfoldable pub save_rounds : Env → List ℕ → Option (List ℕ) → M ℤ
save_rounds env out_path none = pure (pos 1)
save_rounds env out_path (some payload) = save_result env out_path payload

-- Over the open connection.
unfoldable pub encode_exchange : ℕ → Env → Image → ℕ → List ℕ → M ℤ
unfolding save_rounds
encode_exchange fuel env img count out_path =
    encode_rounds count fuel env img none >>= save_rounds env out_path

unfoldable pub encode_image : ℕ → Env → ClientArgs → List ℕ → List ℕ → Option Image → M ℤ
encode_image fuel env args host in_path none = pure (pos 1)
encode_image fuel env args host in_path (some img) =
    connect_host env host args.port
    >>= with_connection (
        encode_exchange fuel env img (nat_of args.count)
          (or_else args.out_path (default_out in_path)))

abbrev pub overridden : Option Image → ℤ → Option Image
overridden none bitness_ovr = none
overridden (some img) bitness_ovr = override_bitness img bitness_ovr

unfoldable pub run_single : ℕ → Env → ClientArgs → List ℕ → List ℕ → M ℤ
run_single fuel env args host in_path = load_path env in_path >>= λ img.
    encode_image fuel env args host in_path (overridden img args.bitness_ovr)

-- What is left of the command line.
unfoldable pub run_args : ℕ → Env → Parsed → M ℤ
run_args fuel env (leave code) = pure code
run_args fuel env (stream_of args host dir paths) =
    run_stream fuel env host args.port dir (nat_of args.ready_pct) paths
run_args fuel env (single args host in_path) = run_single fuel env args host in_path

-- `argv` without the name of the program.
unfoldable pub client_main : ℕ → Env → List (List ℕ) → M ℤ
client_main fuel env argv = run_args fuel env (parse_args default_args argv)
