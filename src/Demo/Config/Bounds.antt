-- ===== src/Demo/Config/Bounds.antt =====
-- The reader stays inside the array of endpoints, and a configuration that passes is usable.
use distributed_leader_elect.Prelude.{
  ℕ, zero, suc, ◌≤◌, ◌<◌, ◌≡◌, refl, ◌∙◌, ap, List, [], Bool, true, false, ◌||◌, Option, none, some,
  ℤ, pos, negsuc, leb_ℤ, ltb_ℤ, eqb_ℤ, ltb, leb, ◌==◌, ==_iff, ◌+◌, ◌⊎◌, inl, inr, Bool-cases,
  get_elem?-eq-get_or, length, length-set, get_or, if_post, if_split, arith,
}
use distributed_leader_elect.Demo.Config.{
  Text, text, eqb_text, Config, max_n, agent_str, read_retry, read_ghs, read_wait, read_runtime,
  read_cfg_item, add_agent, all_known, cfg_is_ok, id_unset,
}
use mathlib.Core.Path.{subst}

-- As many agents as fit, and 8 endpoints.
pub record Fits {F : Type 0} (c : Config F) : Type 0 where
  pub few : c.n_agents ≤ max_n
  pub size : length c.endpoints ≡ max_n

-- After an item: no agent is lost, and the rest fits.
abbrev pub FitsAfter : {F : Type 0} → ℕ → Option (Bool × Config F) → Type 0
FitsAfter n none = Unit {0}
FitsAfter n (some (b, c)) = Fits c × (n ≤ c.n_agents)

-- The same after a call that returns.
abbrev Grown : {F : Type 0} → ℕ → Bool × Config F → Type 0
Grown n p = Fits p.1 × (n ≤ p.1.n_agents)

same-Fits :
    {F : Type 0} {c d : Config F}
    → d.n_agents ≡ c.n_agents
    → d.endpoints ≡ c.endpoints
    → Fits c
    → Fits d × (c.n_agents ≤ d.n_agents)
same-Fits n e f =
    (record { few = omega (arith, n, f.few); size = ap length e ∙ f.size }, omega (arith, n))

add_agent-Fits :
    {F : Type 0} (value : Text) (c : Config F)
    → Fits c
    → c.n_agents < max_n
    → Fits (add_agent value c) × (c.n_agents ≤ (add_agent value c).n_agents)
unfolding add_agent
add_agent-Fits value c f h =
    (record { few = omega arith; size = length-set c.endpoints c.n_agents _ ∙ f.size }, omega arith)

module _ {F : Type 0} (to_seconds : Text → Option F) where
  read_retry-Fits : (value : Text) (c : Config F) → Fits c → Grown c.n_agents (read_retry value c)
  unfolding read_retry
  read_retry-Fits value c f =
      if_post (Grown c.n_agents) (eqb_text value (text "true") || eqb_text value (text "1"))
        (same-Fits refl refl f)
        (if_post (Grown c.n_agents) (eqb_text value (text "0") || eqb_text value (text "false"))
          (same-Fits refl refl f) (same-Fits refl refl f))

  read_wait-Fits : (o : Option F) (c : Config F) → Fits c → Grown c.n_agents (read_wait o c)
  read_wait-Fits none c f = same-Fits refl refl f
  read_wait-Fits (some x) c f = same-Fits refl refl f

  read_runtime-Fits :
      (name value : Text) (c : Config F)
      → Fits c
      → Grown c.n_agents (read_runtime to_seconds name value c)
  unfolding read_runtime
  read_runtime-Fits name value c f =
      if_post (Grown c.n_agents) (eqb_text name (text "debug")) (same-Fits refl refl f) (
        if_post (Grown c.n_agents) (eqb_text name (text "auto_start"))
          (if_post (Grown c.n_agents) (eqb_text value (text "true")) (same-Fits refl refl f) (
            if_post (Grown c.n_agents) (eqb_text value (text "false")) (same-Fits refl refl f)
              (same-Fits refl refl f)))
          (if_post (Grown c.n_agents) (eqb_text name (text "wait_time_seconds"))
            (read_wait-Fits (to_seconds value) c f) (same-Fits refl refl f)))

  read_ghs-Fits :
      (name value : Text) (c : Config F)
      → Fits c
      → c.n_agents < max_n
      → Grown c.n_agents (read_ghs name value c)
  unfolding read_ghs
  read_ghs-Fits name value c f h =
      if_post (Grown c.n_agents) (eqb_text name (agent_str c.n_agents)) (add_agent-Fits value c f h)
        (if_post (Grown c.n_agents) (eqb_text name (text "retry_connections"))
          (read_retry-Fits value c f) (same-Fits refl refl f))

  -- Whatever the item, a configuration with at most 8 agents in its array of 8 endpoints stays one,
  -- and loses no agent, unless the assertion stops the program.
  pub read_cfg_item-Fits :
      (section name value : Text) (c : Config F)
      → Fits c
      → FitsAfter c.n_agents (read_cfg_item to_seconds section name value c)
  unfolding read_cfg_item
  read_cfg_item-Fits section name value c f =
      if_post (FitsAfter c.n_agents) (eqb_text section (text "ghs"))
        (if_split (FitsAfter c.n_agents) (ltb c.n_agents max_n)
          (λ h. read_ghs-Fits name value c f (ground arith)) (λ h. tt))
        (if_post (FitsAfter c.n_agents) (eqb_text section (text "runtime"))
          (read_runtime-Fits name value c f) (same-Fits refl refl f))

-- A configuration that can be used: this agent is one of the agents, and the endpoint of each agent
-- is known.
pub record IsUsable {F : Type 0} (c : Config F) : Type 0 where
  pub mine : (i : ℕ) × (c.my_id ≡ pos i) × (i < c.n_agents)
  pub known : (j : ℕ) → j < c.n_agents → 0 < length (get_or c.endpoints j [])

-- Inside the array the loop tells whether one of the endpoints is empty.
all_known-cases :
    (es : List Text) (k i : ℕ)
    → i + k ≤ length es
    → ((all_known es k i ≡ some true) × ((j : ℕ) → i ≤ j → j < i + k → 0 < length (get_or es j [])))
      ⊎ ((all_known es k i ≡ some false)
          × ((j : ℕ) × (i ≤ j) × (j < i + k) × (length (get_or es j []) ≡ 0)))
unfolding all_known
all_known-cases es zero i h = inl (refl, λ j l u. absurd (omega arith))
all_known-cases es (suc k) i h =
    rw (all_known, get_elem?-eq-get_or es i [] (omega arith))
      (elim (Bool-cases (length (get_or es i []) == 0)) [
        | inl empty ↦ inr (rw empty refl, (i, omega arith, omega arith, ground (arith, empty)))
        | inr full ↦ elim (all_known-cases es k (suc i) (omega arith)) [
          | inl (y, each) ↦ inl (
            rw (full, y) refl,
            λ j l u. elim (Bool-cases (i == j)) [
              | inl e ↦
                  subst (λ x. 0 < length (get_or es x [])) ((==_iff i j).0 e) (ground (arith, full))
              | inr n ↦ each j (ground (arith, n)) (omega arith)
            ],
          )
          | inr (y, (j, l, u, z)) ↦ inr (rw (full, y) refl, (j, omega arith, omega arith, z))
        ]
      ])

-- An id is a number below the number of agents, or the last test finds it out.
in_range :
    (a : ℤ) (n : ℕ)
    → (((leb_ℤ (pos n) a || ltb_ℤ a (pos 0)) ≡ false) × ((i : ℕ) × (a ≡ pos i) × (i < n)))
      ⊎ (((leb_ℤ (pos n) a || ltb_ℤ a (pos 0)) ≡ true) × ¬ ((i : ℕ) × (a ≡ pos i) × (i < n)))
in_range (pos i) n = elim (Bool-cases (leb n i)) [
  | inl y ↦ inr (ground arith, λ (j, e, l). ground arith)
  | inr y ↦ inl (ground arith, (i, refl, ground arith))
]
in_range (negsuc i) n = inr (ground arith, λ (j, e, l). cc)

-- For at most 8 agents in the array of 8 endpoints, the check reads no endpoint past the array, and
-- passes exactly the configurations in which this agent's id is a number below the number of agents and
-- no agent's endpoint is empty.
pub cfg_is_ok_decides :
    {F : Type 0} (c : Config F)
    → Fits c
    → ((cfg_is_ok c ≡ some true) × IsUsable c) ⊎ ((cfg_is_ok c ≡ some false) × ¬ IsUsable c)
unfolding cfg_is_ok eqb_ℤ
cfg_is_ok_decides c f = elim (Bool-cases (eqb_ℤ c.my_id id_unset)) [
  | inl unset ↦ inr (rw unset refl, λ u. unset_id u.mine unset)
  | inr given ↦ elim (Bool-cases (c.n_agents == 0)) [
    | inl none_there ↦ inr (
      rw (given, none_there) refl,
      λ u. let (i, e, l) = u.mine in absurd (ground (arith, none_there)),
    )
    | inr some_there ↦
        elim (all_known-cases c.endpoints c.n_agents 0 (omega (arith, f.few, f.size))) [
          | inr (y, (j, l, b, z)) ↦ inr (
            rw (given, some_there, y) refl,
            λ u. absurd (omega (arith, u.known j (omega (arith, b)), z)),
          )
          | inl (y, each) ↦ elim (in_range c.my_id c.n_agents) [
            | inl (z, mine) ↦ inl (
              rw (given, some_there, y, z) refl,
              record { mine = mine; known = λ j b. each j (omega arith) (omega arith) },
            )
            | inr (z, not_mine) ↦ inr (rw (given, some_there, y, z) refl, λ u. not_mine u.mine)
          ]
        ]
  ]
]
  where
    unset_id : ((i : ℕ) × (c.my_id ≡ pos i) × (i < c.n_agents)) → eqb_ℤ c.my_id id_unset ≡ true → ⊥
    unset_id (i, e, l) h = cc
