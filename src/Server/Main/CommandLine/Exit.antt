-- ===== src/Server/Main/CommandLine/Exit.antt =====
-- Software/src/ojls_server.c: the codes with which the command line makes `main` leave.
use open_jls_demos.Prelude.{
  ℕ, ◌≡◌, ◌⊎◌, ◌||◌, codes, str_eq, refl, true, List, [], ◌∷◌, Option, none, some, if◌then◌else◌,
  Bool-cases, inl, inr, pos,
}
use open_jls_demos.Server.Open.{Options}
use open_jls_demos.Server.Main.CommandLine.{
  leave, run, Parsed, take_option, usage_code, parse_options,
}

-- The command line leads to an exit with 0 or 1, or to a run.
abbrev pub ExitCode : Parsed → Type 0
ExitCode (leave code) = (code ≡ pos 0) ⊎ (code ≡ pos 1)
ExitCode (run opt) = Unit

usage-ExitCode : (a : List ℕ) → ExitCode (leave (usage_code a))
usage-ExitCode a = elim (Bool-cases (str_eq a (codes "-h") || str_eq a (codes "--help"))) [
  | inl help ↦ rw help (inl refl)
  | inr other ↦ rw other (inr refl)
]

pub parse-ExitCode : (opt : Options) (argv : List (List ℕ)) → ExitCode (parse_options opt argv)
unfolding parse_options
parse-ExitCode opt [] = tt
parse-ExitCode opt (a ∷ []) = elim (Bool-cases (str_eq a (codes "--loopback"))) [
  | inl loop ↦ rw loop tt
  | inr other ↦ rw other (usage-ExitCode a)
]
parse-ExitCode opt (a ∷ v ∷ rest) =
    go (take_option opt a v) (λ opt'. parse-ExitCode opt' rest)
      (parse-ExitCode (record opt { loopback = true }) (v ∷ rest))
  where
    go :
        (r : Option Options)
        → ((opt' : Options) → ExitCode (parse_options opt' rest))
        → ExitCode (parse_options (record opt { loopback = true }) (v ∷ rest))
        → ExitCode (elim r as (λ _. Parsed) [
          | some opt' ↦ parse_options opt' rest
          | none ↦
              if str_eq a (codes "--loopback")
              then parse_options (record opt { loopback = true }) (v ∷ rest)
              else leave (usage_code a)
        ])
    go (some opt') h l = h opt'
    go none h l = elim (Bool-cases (str_eq a (codes "--loopback"))) [
      | inl loop ↦ rw loop l
      | inr other ↦ rw other (usage-ExitCode a)
    ]
