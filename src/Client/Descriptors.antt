-- ===== src/Client/Descriptors.antt =====
-- The client closes every socket that it opens.
use open_jls_demos.Prelude.{
  ℕ, zero, suc, ◌+◌, ◌*◌, ◌/◌, ◌^◌, ◌<◌, ◌≡◌, refl, Bool, true, false, ◌||◌, ◌&&◌, not, List, [],
  ◌∷◌, Option, none, some, length, u32, ltb, ◌==◌, if◌then◌else◌, IsU32, ℤ, pos, negsuc, arith,
}
use open_jls_demos.World.{Env, Trace, file_read, received, sent}
use open_jls_demos.World.Returns.{Returns, Returns-bind, Returns-map, Returns-if}
use open_jls_demos.World.Laws.{Lawful}
use open_jls_demos.World.Keeps.{Returns-and}
use open_jls_demos.World.Handles.{Balance, Balance-trans}
use open_jls_demos.World.System.{sys_alloc, sys_file, sys_save}
use open_jls_demos.World.Tidy.{
  SameHandles, SameHandles-IsCalm, Tidy, Tidy-pure, Gains-bind, Tidy-of,
}
use open_jls_demos.Client.{Image}
use open_jls_demos.Client.Connect.{connect_host}
use open_jls_demos.Client.Encode.Ends.{RoundsEnd}
use open_jls_demos.Client.Encode.Answers.{encode_rounds_total}
use open_jls_demos.Client.Encode.Keeps.{encode_rounds-Keeps}
use open_jls_demos.Client.Files.{parse_file, load_path, save_result}
use open_jls_demos.Client.Pgm.{pgm_load}
use open_jls_demos.Client.Pgm.Load.{pgm_load-IsImage}
use open_jls_demos.Client.Stream.{
  Loaded, differs, add_image, load_images, stream_exchange, on_loaded, run_stream,
}
use open_jls_demos.Client.Stream.Keeps.{load_path-Keeps, load_images-Keeps, stream_exchange-Keeps}
use open_jls_demos.Client.Stream.Written.{kept}
use open_jls_demos.Client.Stream.Outcome.{StreamEnd}
use open_jls_demos.Client.Stream.Exchange.{stream_msg, stream_exchange_total}
use open_jls_demos.Client.Main.{
  override_bitness, overridden, save_rounds, encode_exchange, encode_image, run_single, run_args,
  client_main,
}
use open_jls_demos.Client.Main.Args.{
  ClientArgs, Parsed, leave, stream_of, single, parse_args, default_args,
}
use open_jls_demos.Client.Stream.Closes.{connect_host-Gains, with_connection-Tidy}

-- The size of an image that may be there has 32 bits.
abbrev Small : Option Image → Type 0
Small none = Unit
Small (some img) = IsU32 img.bytes

load-Small : (memory : ℕ → Bool) (file : List ℕ) → Small (pgm_load memory file)
load-Small memory file = go (pgm_load memory file) refl
  where
    go : (r : Option Image) → pgm_load memory file ≡ r → Small r
    go none e = tt
    go (some img) e = omega (arith, (pgm_load-IsImage memory file img e).bytes)

override-Small : (r : Option Image) (bits : ℤ) → Small r → Small (overridden r bits)
unfolding override_bitness
override-Small none bits h = tt
override-Small (some img) (pos zero) h = h
override-Small (some img) (pos (suc n)) h =
    let bad =
      ltb (suc n) img.bitness
      || ltb 16 (suc n)
      || (img.bytes / u32 (img.width * img.height) == 1 && ltb 8 (suc n)) in
    elim bad as (λ b. Small (if b then none else some (record img { bitness = suc n }))) [
      | true ↦ tt
      | false ↦ h
    ]
override-Small (some img) (negsuc n) h = tt

module _ (env : Env) where
  load_path-Small : (path : List ℕ) (t : Trace) → Returns (load_path env path t) (λ r _. Small r)
  unfolding load_path sys_file parse_file
  load_path-Small path t = go (env.file t path)
    where
      go :
          (r : Option (List ℕ)) → Returns (parse_file env r (file_read path r ∷ t)) (λ r _. Small r)
      go none = tt
      go (some bytes) = load-Small (env.alloc (file_read path (some bytes) ∷ t)) bytes

  load_images-Returns :
      (count : ℕ) (paths : List (List ℕ)) (so_far : Option Loaded) (t : Trace)
      → Returns (load_images env count paths so_far t) (λ _ _. Unit {0})
  unfolding load_images add_image sys_alloc
  load_images-Returns count [] so_far t = tt
  load_images-Returns count (path ∷ paths) so_far t =
      Returns-bind (load_path env path) (add_image env count (load_images env count paths) so_far) t
        (λ r _. Small r) (λ _ _. Unit) (load_path-Small path t)
        (λ r u _. add (load_images-Returns count paths) so_far r u)
    where
      add :
          ((s : Option Loaded) (u : Trace)
            → Returns (load_images env count paths s u) (λ _ _. Unit {0}))
          → (s : Option Loaded) (r : Option Image) (u : Trace)
          → Returns (add_image env count (load_images env count paths) s r u) (λ _ _. Unit {0})
      add h s none u = tt
      add h none (some img) u =
          Returns-if (not (env.alloc u (img.bytes * count))) _ _ _ (λ _ _. Unit) (λ _. tt)
            (λ _. h _ _)
      add h (some (first, pixels)) (some img) u =
          Returns-if (differs img first) _ _ u (λ _ _. Unit) (λ _. tt) (λ _. h _ _)

module _ {env : Env} {k : ℕ} (law : Lawful env k) (fuel : ℕ) (enough : 2 ^ 32 + k < fuel) where
  encode_exchange-Tidy :
      (img : Image) (count : ℕ) (out_path : List ℕ)
      → IsU32 img.bytes
      → Tidy (encode_exchange fuel env img count out_path)
  unfolding encode_exchange save_rounds save_result sys_save
  encode_exchange-Tidy img count out_path small =
      Gains-bind
        (Tidy-of (λ t. RoundsEnd count img none (received t) (sent t))
          (λ t. encode_rounds_total fuel img count t law enough small)
          (encode_rounds-Keeps SameHandles-IsCalm env fuel img count none))
        save
    where
      save : (r : Option (List ℕ)) → Tidy (save_rounds env out_path r)
      save none = Tidy-pure (pos 1)
      save (some payload) =
          Gains-bind {m = sys_save env out_path payload}
            (record { ends = λ t. record { holds = λ g. omega arith } })
            (λ io. Tidy-pure (if io.created && io.filled then pos 0 else pos 1))

  stream_exchange-Tidy :
      (dir : List ℕ) (ready_pct : ℕ) (paths : List (List ℕ)) (loaded : Loaded)
      → Tidy (stream_exchange fuel env dir ready_pct paths loaded)
  stream_exchange-Tidy dir ready_pct paths loaded =
      Tidy-of
        (λ t.
          StreamEnd dir paths (stream_msg loaded ready_pct (length paths)) (received t) (sent t)
            (kept t))
        (λ t. stream_exchange_total fuel dir ready_pct paths loaded t law enough)
        (stream_exchange-Keeps SameHandles-IsCalm env fuel
          (λ path bytes io t. record { holds = λ g. omega arith }) dir ready_pct paths loaded)

  run_stream-Tidy :
      (host : List ℕ) (port : ℤ) (dir : List ℕ) (ready_pct : ℕ) (paths : List (List ℕ))
      → Tidy (run_stream fuel env host port dir ready_pct paths)
  unfolding run_stream on_loaded
  run_stream-Tidy host port dir ready_pct paths =
      Gains-bind
        (Tidy-of (λ _ _ _. Unit {0}) (load_images-Returns env (length paths) paths none)
          (load_images-Keeps SameHandles-IsCalm env (length paths) paths none))
        go
    where
      go : (r : Option Loaded) → Tidy (on_loaded fuel env host port dir ready_pct paths r)
      go none = Tidy-pure (pos 1)
      go (some loaded) =
          with_connection-Tidy env (connect_host env host port) _ (connect_host-Gains env host port)
            (stream_exchange-Tidy dir ready_pct paths loaded)

  encode_image-Tidy :
      (args : ClientArgs) (host in_path : List ℕ) (r : Option Image)
      → Small r
      → Tidy (encode_image fuel env args host in_path r)
  unfolding encode_image
  encode_image-Tidy args host in_path none h = Tidy-pure (pos 1)
  encode_image-Tidy args host in_path (some img) h =
      with_connection-Tidy env (connect_host env host args.port) _
        (connect_host-Gains env host args.port) (encode_exchange-Tidy img _ _ h)

  run_single-Tidy :
      (args : ClientArgs) (host in_path : List ℕ) → Tidy (run_single fuel env args host in_path)
  unfolding run_single
  run_single-Tidy args host in_path = record {
    ends = λ t.
        Returns-bind (load_path env in_path) _ t (λ r u. Small r × SameHandles t u)
          (λ _ v. Balance [] [] t v)
          (Returns-and (load_path env in_path) t (λ r _. Small r) (load_path-Small env in_path t)
            (load_path-Keeps SameHandles-IsCalm env in_path))
          (λ r u (small, b).
            let img = overridden r args.bitness_ovr in
            let tidy =
              encode_image-Tidy args host in_path img (override-Small r args.bitness_ovr small) in
            Returns-map (encode_image fuel env args host in_path img u) (λ _ v. Balance [] [] u v)
              (λ _ v. Balance [] [] t v) (tidy.ends u) (λ _ v c. Balance-trans b c));
  }

  run_args-Tidy : (parsed : Parsed) → Tidy (run_args fuel env parsed)
  unfolding run_args
  run_args-Tidy (leave code) = Tidy-pure code
  run_args-Tidy (stream_of args host dir paths) = run_stream-Tidy host args.port dir _ paths
  run_args-Tidy (single args host in_path) = run_single-Tidy args host in_path

-- Where every system call returns, under the laws and with fuel above 4 GiB, the client ends for
-- any command line, and has then closed exactly the sockets that it opened: also where no address
-- answers, a connection breaks, a reply is malformed or a file cannot be written. The files, which
-- are read and written in one event each, are not counted.
pub client_main_closes :
    {env : Env} {k : ℕ} (fuel : ℕ) (argv : List (List ℕ)) (t : Trace)
    → Lawful env k
    → 2 ^ 32 + k < fuel
    → Returns (client_main fuel env argv t) (λ _ u. Balance [] [] t u)
unfolding client_main
client_main_closes fuel argv t law enough =
    (run_args-Tidy law fuel enough (parse_args default_args argv)).ends t
