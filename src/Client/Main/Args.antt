-- ===== src/Client/Main/Args.antt =====
-- Software/host/ojls_client.c: the loop of `main` over the command line.
pub mod Settings
use open_jls_demos.Prelude.{
  ℕ, suc, Bool, false, ◌||◌, ◌&&◌, List, [], ◌∷◌, Option, none, some, leb, if◌then◌else◌, ℤ, pos,
  negsuc, codes, str_eq, starts_with, atoi,
}

pub record ClientArgs : Type 0 where
  pub host : Option (List ℕ)
  pub in_path : Option (List ℕ)
  pub out_path : Option (List ℕ)
  pub stream_dir : Option (List ℕ)
  pub port : ℤ
  pub bitness_ovr : ℤ
  pub count : ℤ
  pub ready_pct : ℤ

-- OJLS_PROTO_PORT
abbrev pub proto_port : ℕ
proto_port = 19020

abbrev pub default_args : ClientArgs
default_args = record {
  host = none;
  in_path = none;
  out_path = none;
  stream_dir = none;
  port = pos proto_port;
  bitness_ovr = pos 0;
  count = pos 1;
  ready_pct = pos 100;
}

-- What an argument with a value behind it does.
pub data Taken : Type 0 where
  taken : ClientArgs → Taken
  refused not_taken : Taken

abbrev pub percent : ℤ → Bool
percent (pos n) = leb 1 n && leb n 100
percent (negsuc n) = false

unfoldable pub take_option : ClientArgs → List ℕ → List ℕ → Taken
take_option args a v =
    if str_eq a (codes "-p")
    then taken (record args { port = atoi v })
    else if str_eq a (codes "-b")
    then taken (record args { bitness_ovr = atoi v })
    else if str_eq a (codes "-n")
    then taken (record args { count = atoi v })
    else if str_eq a (codes "-s")
    then taken (record args { stream_dir = some v })
    else if str_eq a (codes "-r")
    then (if percent (atoi v) then taken (record args { ready_pct = atoi v }) else refused)
    else not_taken

-- What the command line asks for: to leave with a code, or one of the two modes.
pub data Parsed : Type 0 where
  leave : ℤ → Parsed
  stream_of : ClientArgs → List ℕ → List ℕ → List (List ℕ) → Parsed
  single : ClientArgs → List ℕ → List ℕ → Parsed

-- What any other argument does: go on, or be the last that is looked at.
pub data Plain : Type 0 where
  more : ClientArgs → Plain
  last : Parsed → Plain

abbrev pub usage_code : List ℕ → ℤ
usage_code a = if str_eq a (codes "-h") || str_eq a (codes "--help") then pos 0 else pos 1

-- `rest` begins with `a`; the fields are those of `args` that decide.
unfoldable pub take_path :
    ClientArgs
    → Option (List ℕ)
    → Option (List ℕ)
    → Option (List ℕ)
    → List ℕ
    → List (List ℕ)
    → Plain
take_path args none stream_dir in_path a rest = more (record args { host = some a })
take_path args (some host) (some dir) in_path a rest = last (stream_of args host dir rest)
take_path args (some host) none none a rest = more (record args { in_path = some a })
take_path args (some host) none (some path) a rest = more (record args { out_path = some a })

unfoldable pub take_plain : ClientArgs → List ℕ → List (List ℕ) → Plain
take_plain args a rest =
    if starts_with (codes "-") a
    then last (leave (usage_code a))
    else take_path args args.host args.stream_dir args.in_path a rest

-- `count < 1` and the missing paths.
unfoldable pub all_read : ClientArgs → Option (List ℕ) → Option (List ℕ) → ℤ → Parsed
all_read args (some host) (some in_path) (pos (suc n)) = single args host in_path
all_read args host in_path count = leave (pos 1)

unfoldable pub parse_args : ClientArgs → List (List ℕ) → Parsed
parse_args args [] = all_read args args.host args.in_path args.count
parse_args args (a ∷ []) = elim (take_plain args a (a ∷ [])) [
  | more args' ↦ all_read args' args'.host args'.in_path args'.count
  | last parsed ↦ parsed
]
parse_args args (a ∷ v ∷ rest) = elim (take_option args a v) [
  | taken args' ↦ parse_args args' rest
  | refused ↦ leave (pos 1)
  | not_taken ↦ elim (take_plain args a (a ∷ v ∷ rest)) [
    | more args' ↦ parse_args args' (v ∷ rest)
    | last parsed ↦ parsed
  ]
]
