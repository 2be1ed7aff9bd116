-- ===== src/Client/Main/Args/Settings.antt =====
-- The command line of the client against the settings that it spells.
use open_jls_demos.Prelude.{
  ℕ, ◌≡◌, refl, ◌∙◌, true, false, List, [], ◌∷◌, Option, none, some, All, codes, starts_with, atoi,
  arith,
}
use open_jls_demos.Client.Main.Args.{
  ClientArgs, Parsed, stream_of, default_args, percent, more, take_option, not_taken, take_path,
  take_plain, all_read, parse_args,
}

-- An option with its value.
pub data Setting : Type 0 where
  set_port set_bits set_count set_dir set_ready : List ℕ → Setting

abbrev pub spelled : Setting → List (List ℕ) → List (List ℕ)
spelled (set_port v) rest = codes "-p" ∷ v ∷ rest
spelled (set_bits v) rest = codes "-b" ∷ v ∷ rest
spelled (set_count v) rest = codes "-n" ∷ v ∷ rest
spelled (set_dir v) rest = codes "-s" ∷ v ∷ rest
spelled (set_ready v) rest = codes "-r" ∷ v ∷ rest

abbrev pub spell : List Setting → List (List ℕ) → List (List ℕ)
spell [] rest = rest
spell (s ∷ ss) rest = spelled s (spell ss rest)

-- What a setting means, and what settings mean in order: a later one replaces an earlier one.
abbrev pub meant : Setting → ClientArgs → ClientArgs
meant (set_port v) args = record args { port = atoi v }
meant (set_bits v) args = record args { bitness_ovr = atoi v }
meant (set_count v) args = record args { count = atoi v }
meant (set_dir v) args = record args { stream_dir = some v }
meant (set_ready v) args = record args { ready_pct = atoi v }

abbrev pub meaning : List Setting → ClientArgs → ClientArgs
meaning [] args = args
meaning (s ∷ ss) args = meaning ss (meant s args)

-- A ready level is a percentage.
abbrev pub InRange : Setting → Type 0
InRange (set_ready v) = percent (atoi v) ≡ true
InRange s = Unit

-- A path is not taken for an option.
abbrev pub IsPath : List ℕ → Type 0
IsPath p = starts_with (codes "-") p ≡ false

-- Two paths behind the settings: all that follows the host, or the input of one image.
abbrev pub request_of : ClientArgs → Option (List ℕ) → List ℕ → List ℕ → Parsed
request_of args (some dir) host path =
    stream_of (record args { host = some host }) host dir (path ∷ [])
request_of args none host path =
    all_read (record args { host = some host; in_path = some path }) (some host) (some path)
      args.count

parse-spelled :
    (s : Setting) (args : ClientArgs) (rest : List (List ℕ))
    → InRange s
    → parse_args args (spelled s rest) ≡ parse_args (meant s args) rest
unfolding parse_args take_option
parse-spelled (set_port v) args rest h = refl
parse-spelled (set_bits v) args rest h = refl
parse-spelled (set_count v) args rest h = refl
parse-spelled (set_dir v) args rest h = refl
parse-spelled (set_ready v) args rest h = ground (arith, h)

parse-spell :
    (ss : List Setting) (args : ClientArgs) (rest : List (List ℕ))
    → All InRange ss
    → parse_args args (spell ss rest) ≡ parse_args (meaning ss args) rest
parse-spell [] args rest h = refl
parse-spell (s ∷ ss) args rest (h, hs) =
    parse-spelled s args (spell ss rest) h ∙ parse-spell ss (meant s args) rest hs

-- An argument without a dash in front is no option.
take_option-path : (args : ClientArgs) (p v : List ℕ) → IsPath p → take_option args p v ≡ not_taken
unfolding take_option
take_option-path args [] v h = refl
take_option-path args (c ∷ p) v h = ground (arith, h)

-- The settings leave the paths alone.
meaning-paths :
    (ss : List Setting) (args : ClientArgs)
    → ((meaning ss args).host ≡ args.host) × ((meaning ss args).in_path ≡ args.in_path)
meaning-paths [] args = (refl, refl)
meaning-paths (set_port v ∷ ss) args = meaning-paths ss (meant (set_port v) args)
meaning-paths (set_bits v ∷ ss) args = meaning-paths ss (meant (set_bits v) args)
meaning-paths (set_count v ∷ ss) args = meaning-paths ss (meant (set_count v) args)
meaning-paths (set_dir v ∷ ss) args = meaning-paths ss (meant (set_dir v) args)
meaning-paths (set_ready v ∷ ss) args = meaning-paths ss (meant (set_ready v) args)

plain_host :
    (args : ClientArgs) (host : List ℕ) (rest : List (List ℕ))
    → args.host ≡ none
    → IsPath host
    → take_plain args host rest ≡ more (record args { host = some host })
unfolding take_plain take_path
plain_host args host rest e h = rw (h, e) refl

plain_path :
    (args : ClientArgs) (host path : List ℕ) (dir : Option (List ℕ))
    → args.in_path ≡ none
    → args.stream_dir ≡ dir
    → IsPath path
    → parse_args (record args { host = some host }) (path ∷ []) ≡ request_of args dir host path
unfolding parse_args take_plain take_path
plain_path args host path none f d p = ground (arith, p, d, f)
plain_path args host path (some dir) f d p = ground (arith, p, d)

parse-paths :
    (args : ClientArgs) (host path : List ℕ)
    → args.host ≡ none
    → args.in_path ≡ none
    → IsPath host
    → IsPath path
    → parse_args args (host ∷ path ∷ []) ≡ request_of args args.stream_dir host path
unfolding parse_args
parse-paths args host path e f h p = ground (
  arith,
  take_option-path args host path h,
  plain_host args host (host ∷ path ∷ []) e h,
  plain_path args host path args.stream_dir f refl p,
)

-- Options with values in any number and order, then a host and one path: the client's command line
-- is read as the settings mean them, a later one in place of an earlier one. With an output
-- directory the request is a stream of that path, and otherwise one of a single image, or the exit
-- with 1 where the count is below 1. The host and the path do not begin with a dash, and ready
-- levels are from 1 to 100.
pub command_line_means :
    (ss : List Setting) (host path : List ℕ)
    → All InRange ss
    → IsPath host
    → IsPath path
    → parse_args default_args (spell ss (host ∷ path ∷ []))
      ≡ request_of (meaning ss default_args) (meaning ss default_args).stream_dir host path
command_line_means ss host path r h p =
    let (a, b) = meaning-paths ss default_args in
    parse-spell ss default_args (host ∷ path ∷ []) r
    ∙ parse-paths (meaning ss default_args) host path a b h p
