-- ===== src/Ghs/Lookup.antt =====
-- `checked_index_of`: which cell holds a peer, and that no cell does.
use distributed_leader_elect.Prelude.{
  ℕ, zero, suc, ◌+◌, ◌-◌, ◌≤◌, ◌<◌, ◌≡◌, refl, ◌∙◌, sym, ap, ◌⊎◌, inl, inr, List, [], ◌∷◌,
  Bool-cases, false, length, get_or, get_or-take, take, length-take, eqb_ℤ, eqb_ℤ-sound, arith,
}
use distributed_leader_elect.Errno.{Errno}
use distributed_leader_elect.Edge.{Agent, no_agent}
use distributed_leader_elect.Ghs.State.{GhsState, Result, done, fail}
use distributed_leader_elect.Ghs.Peers.{index_from, checked_index_of}

pub Result-cases :
    {A : Type 0} (r : Result A) → ((a : A) × (r ≡ done a)) ⊎ ((e : Errno) × (r ≡ fail e))
Result-cases (done a) = inl (a, refl)
Result-cases (fail e) = inr (e, refl)

pub fail_ne_done : {A : Type 0} {e : Errno} {a : A} → fail e ≡ done a → ⊥
fail_ne_done h = cc

k_minus : (i : ℕ) → i - i ≡ 0
k_minus i = omega arith

zero_sub : (k : ℕ) → k ≡ k - 0
zero_sub k = omega arith

suc_sub : (i k : ℕ) → suc i ≤ k → k - i ≡ suc (k - suc i)
suc_sub i k h = omega arith

later :
    (p : Agent) (ps : List Agent) (i k : ℕ)
    → suc i ≤ k
    → get_or (p ∷ ps) (k - i) no_agent ≡ get_or ps (k - suc i) no_agent
later p ps i k h = rw (suc_sub i k h) refl

absent_cons :
    (who p : Agent) (ps : List Agent) (j : ℕ)
    → eqb_ℤ p who ≡ false
    → j < length (p ∷ ps)
    → ((k : ℕ) → k < length ps → eqb_ℤ (get_or ps k no_agent) who ≡ false)
    → eqb_ℤ (get_or (p ∷ ps) j no_agent) who ≡ false
absent_cons who p ps zero y b h = y
absent_cons who p ps (suc j) y b h = h j (omega arith)

index_from-found :
    (who : Agent) (i : ℕ) (ps : List Agent) (k : ℕ)
    → index_from who i ps ≡ done k
    → (i ≤ k) × (k < i + length ps) × (get_or ps (k - i) no_agent ≡ who)
unfolding index_from
index_from-found who i [] k h = absurd (fail_ne_done h)
index_from-found who i (p ∷ ps) k h = elim (Bool-cases (eqb_ℤ p who)) [
  | inl y ↦
      let here : i ≡ k = ground arith in
      (omega arith, omega arith, rw (← here, k_minus i) (eqb_ℤ-sound p who y))
  | inr y ↦
      let (lo, hi, at_k) = index_from-found who (suc i) ps k (ground arith) in
      (omega arith, omega arith, later p ps i k lo ∙ at_k)
]

index_from-absent :
    (who : Agent) (i : ℕ) (ps : List Agent) (e : Errno) (j : ℕ)
    → index_from who i ps ≡ fail e
    → j < length ps
    → eqb_ℤ (get_or ps j no_agent) who ≡ false
unfolding index_from
index_from-absent who i [] e j h b = absurd (omega arith)
index_from-absent who i (p ∷ ps) e j h b = elim (Bool-cases (eqb_ℤ p who)) [
  | inl y ↦ ground arith
  | inr y ↦ absent_cons who p ps j y b λ k f. index_from-absent who (suc i) ps e k (ground arith) f
]

pub checked_index_of-found :
    (s : GhsState) (who : Agent) (k : ℕ)
    → checked_index_of s who ≡ done k
    → (k < s.n_peers)
      × (k < length s.peers)
      × (get_or s.peers k no_agent ≡ who)
      × (eqb_ℤ who s.my_id ≡ false)
unfolding checked_index_of
checked_index_of-found s who k h = elim (Bool-cases (eqb_ℤ who s.my_id)) [
  | inl y ↦ ground arith
  | inr y ↦
      let (lo, hi, at_k) = index_from-found who 0 (take s.n_peers s.peers) k (ground arith) in
      let size = length-take s.n_peers s.peers in
      (
        omega arith,
        omega arith,
        sym (get_or-take s.n_peers s.peers k no_agent (omega arith))
            ∙ ap (λ i. get_or (take s.n_peers s.peers) i no_agent) (zero_sub k)
            ∙ at_k,
        y,
      )
]

pub checked_index_of-absent :
    (s : GhsState) (who : Agent) (e : Errno) (j : ℕ)
    → checked_index_of s who ≡ fail e
    → eqb_ℤ who s.my_id ≡ false
    → j < s.n_peers
    → j < length s.peers
    → eqb_ℤ (get_or s.peers j no_agent) who ≡ false
unfolding checked_index_of
checked_index_of-absent s who e j h y b l =
    ap (λ a. eqb_ℤ a who) (sym (get_or-take s.n_peers s.peers j no_agent b))
    ∙ index_from-absent who 0 (take s.n_peers s.peers) e j (ground arith)
        (omega (arith, length-take s.n_peers s.peers))
