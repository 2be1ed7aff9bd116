-- ===== src/Server/Main/CommandLine.antt =====
-- Software/src/ojls_server.c: the loop of `main` over the command line.
pub mod Exit
use open_jls_demos.Prelude.{
  ℕ, true, false, ◌||◌, List, [], ◌∷◌, Option, none, some, if◌then◌else◌, ℤ, pos, codes, str_eq,
  atoi,
}
use open_jls_demos.Server.Open.{Options}

abbrev pub default_options : Options
default_options = record {
  port = pos 19020;
  regs_name = codes "openjls";
  dma_name = codes "dma";
  gate_name = codes "ready_gate";
  tx_buf = none;
  rx_buf = none;
  desc_buf = none;
  timeout_ms = pos 10000;
  loopback = false;
}

-- An option with the value behind it, or `none` for anything else.
unfoldable pub take_option : Options → List ℕ → List ℕ → Option Options
take_option opt a v =
    if str_eq a (codes "-p")
    then some (record opt { port = atoi v })
    else if str_eq a (codes "--regs")
    then some (record opt { regs_name = v })
    else if str_eq a (codes "--dma")
    then some (record opt { dma_name = v })
    else if str_eq a (codes "--gate")
    then some (record opt { gate_name = v })
    else if str_eq a (codes "--tx-buf")
    then some (record opt { tx_buf = some v })
    else if str_eq a (codes "--rx-buf")
    then some (record opt { rx_buf = some v })
    else if str_eq a (codes "--desc-buf")
    then some (record opt { desc_buf = some v })
    else if str_eq a (codes "--timeout")
    then some (record opt { timeout_ms = atoi v })
    else none

-- What the command line asks for: to leave with a code, or to run.
pub data Parsed : Type 0 where
  leave : ℤ → Parsed
  run : Options → Parsed

abbrev pub usage_code : List ℕ → ℤ
usage_code a = if str_eq a (codes "-h") || str_eq a (codes "--help") then pos 0 else pos 1

unfoldable pub parse_options : Options → List (List ℕ) → Parsed
parse_options opt [] = run opt
parse_options opt (a ∷ []) =
    if str_eq a (codes "--loopback")
    then run (record opt { loopback = true })
    else leave (usage_code a)
parse_options opt (a ∷ v ∷ rest) = elim (take_option opt a v) [
  | some opt' ↦ parse_options opt' rest
  | none ↦
      let more = parse_options (record opt { loopback = true }) (v ∷ rest) in
      if str_eq a (codes "--loopback") then more else leave (usage_code a)
]
