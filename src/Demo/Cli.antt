-- ===== src/Demo/Cli.antt =====
-- src/demo/ghs-demo-clireader.cpp: the command line. argp, which splits it into options and calls
-- `parse_it` for each, is a parameter by these calls; so are `atoi` and `atof`.
use distributed_leader_elect.Prelude.{
  ℕ, ◌-◌, ◌%◌, List, [], ◌∷◌, Option, none, some, ℤ, pos, negsuc, ◌==◌, if◌then◌else◌,
}
use distributed_leader_elect.Demo.Config.{Text, Config, start}

-- `(uint8_t) n`.
abbrev pub to_u8 : ℤ → ℕ
to_u8 (pos n) = n % 256
to_u8 (negsuc n) = 255 - n % 256

-- The option that argp found: a key, and ARGP_KEY_NO_ARGS, which it passes on where the line has no
-- arguments.
pub data Key : Type 0 where
  letter : ℕ → Key
  no_args : Key

abbrev pub key_my_id : ℕ
key_my_id = b'i'

abbrev pub key_start : ℕ
key_start = b's'

abbrev pub key_wait : ℕ
key_wait = b'w'

abbrev pub key_test : ℕ
key_test = b't'

module _ {F : Type 0} (atoi : Text → ℤ) (atof : Text → F) where
  -- `none` is ARGP_ERR_UNKNOWN. What is printed is left out.
  unfoldable pub parse_it : Key → Text → Config F → Option (Config F)
  parse_it no_args arg c = some c
  parse_it (letter k) arg c =
      if k == key_my_id
      then some (record c { my_id = pos (to_u8 (atoi arg)) })
      else if k == key_start
      then some (record c { command = start })
      else if k == key_wait
      then some (record c { wait_s = atof arg })
      else if k == key_test
      then some (record c { run_test = pos 1 })
      else none

  -- `argp_parse` with ARGP_IN_ORDER, by the calls that it makes. An unknown option ends the program.
  unfoldable pub read_cfg_cli : List (Key × Text) → Config F → Option (Config F)
  unfolding parse_it
  read_cfg_cli [] c = some c
  read_cfg_cli ((k, arg) ∷ rest) c = elim (parse_it k arg c) [
    | none ↦ none
    | some c' ↦ read_cfg_cli rest c'
  ]
