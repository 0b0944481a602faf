-- ===== src/Demo/Config.antt =====
-- src/demo/ghs-demo-config.h and ghs-demo-inireader.cpp: the configuration, one item at a time.
pub mod Bounds
use Prim.Native.Char.{code}
use Prim.Native.String.{String}
use distributed_leader_elect.Prelude.{
  ℕ, zero, suc, ◌+◌, ◌-◌, ◌≤◌, ◌<◌, ◌≡◌, ◌≢◌, refl, ◌∙◌, List, [], ◌∷◌, Bool, true, false, ◌||◌,
  Option, none, some, ℤ, pos, negsuc, eqb_ℤ, eqb_ℤ-sound, leb_ℤ, ltb_ℤ, ◌==◌, ltb, if◌then◌else◌,
  length, length-set, get_or, get_elem?, take, set, replicate, if_post, if_split, Bool-cases, inl,
  inr, arith,
}

-- A C string: its bytes before the terminator.
abbrev pub Text : Type 0
Text = List ℕ

abbrev pub text : String → Text
text String.[] = []
text (String.◌∷◌ c s) = code c ∷ text s

-- `strcmp(a, b) == 0`.
unfoldable pub eqb_text : Text → Text → Bool
eqb_text [] [] = true
eqb_text (a ∷ xs) (b ∷ ys) = if a == b then eqb_text xs ys else false
eqb_text _ _ = false

abbrev pub max_n : ℕ
max_n = 8

abbrev pub max_endpoint_sz : ℕ
max_endpoint_sz = 256

abbrev pub n_unset : ℕ
n_unset = 0

abbrev pub id_unset : ℤ
id_unset = negsuc 0

pub data Command : Type 0 where
  load test start : Command

-- `Config`. `F` stands for `float`.
pub record Config (F : Type 0) : Type 0 where
  pub wait_s : F
  pub n_agents : ℕ
  pub endpoints : List Text
  pub run_test : ℤ
  pub my_id : ℤ
  pub command : Command
  pub retry_connections : Bool

-- `snprintf(agent_str, 32, "%d", n)`: one digit, since the assertion before it has `n` below 8.
abbrev pub agent_str : ℕ → Text
agent_str n = (48 + n) ∷ []

module _ {F : Type 0} where
  -- `retry_connections=<value>`.
  unfoldable pub read_retry : Text → Config F → Bool × Config F
  read_retry value c =
      if eqb_text value (text "true") || eqb_text value (text "1")
      then (true, record c { retry_connections = true })
      else if eqb_text value (text "0") || eqb_text value (text "false")
      then (true, record c { retry_connections = false })
      else (false, c)

  -- `<id>=<endpoint>` for the next id.
  unfoldable pub add_agent : Text → Config F → Config F
  add_agent value c = record c {
    endpoints = set c.endpoints c.n_agents (take (max_endpoint_sz - 1) value);
    n_agents = c.n_agents + 1;
  }

  -- The section "ghs", behind its assertion.
  unfoldable pub read_ghs : Text → Text → Config F → Bool × Config F
  unfolding read_retry add_agent
  read_ghs name value c =
      if eqb_text name (agent_str c.n_agents)
      then (true, add_agent value c)
      else if eqb_text name (text "retry_connections")
      then read_retry value c
      else (false, c)

  -- `wait_time_seconds=<value>`; the parameter has none where `strtof` returns 0 and sets `errno`.
  abbrev pub read_wait : Option F → Config F → Bool × Config F
  read_wait none c = (false, c)
  read_wait (some seconds) c = (true, record c { wait_s = seconds })

module _ {F : Type 0} (to_seconds : Text → Option F) where
  -- The section "runtime".
  unfoldable pub read_runtime : Text → Text → Config F → Bool × Config F
  read_runtime name value c =
      if eqb_text name (text "debug")
      then (true, c)
      else if eqb_text name (text "auto_start")
      then (if eqb_text value (text "true")
          then (true, record c { command = start })
          else if eqb_text value (text "false")
          then (true, record c { command = start })
          else (false, c))
      else if eqb_text name (text "wait_time_seconds")
      then read_wait (to_seconds value) c
      else (false, c)

  -- The callback. It has none where the assertion fails and the program aborts.
  unfoldable pub read_cfg_item : Text → Text → Text → Config F → Option (Bool × Config F)
  unfolding read_ghs read_runtime
  read_cfg_item section name value c =
      if eqb_text section (text "ghs")
      then (if ltb c.n_agents max_n then some (read_ghs name value c) else none)
      else if eqb_text section (text "runtime")
      then some (read_runtime name value c)
      else some (false, c)

-- The loop of `cfg_is_ok`: `k` endpoints from `i` on. It has none where it reads past the array.
unfoldable pub all_known : List Text → ℕ → ℕ → Option Bool
all_known es zero i = some true
all_known es (suc k) i =
    let rest = all_known es k (suc i) in
    elim (get_elem? es i) [ none ↦ none | some e ↦ if length e == 0 then some false else rest ]

-- It has none where the loop reads past the array.
unfoldable pub cfg_is_ok : {F : Type 0} → Config F → Option Bool
unfolding all_known
cfg_is_ok c =
    if eqb_ℤ c.my_id id_unset
    then some false
    else if c.n_agents == n_unset
    then some false
    else elim (all_known c.endpoints c.n_agents 0) [
      | none ↦ none
      | some false ↦ some false
      | some true ↦
          some (if leb_ℤ (pos c.n_agents) c.my_id || ltb_ℤ c.my_id (pos 0) then false else true)
    ]
