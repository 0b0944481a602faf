-- ===== src/Seque/Window.antt =====
-- The items of a circular buffer, read round its end.
use distributed_leader_elect.Prelude.{
  ℕ, zero, suc, ◌+◌, ◌-◌, ◌*◌, ◌≤◌, ◌<◌, ◌≡◌, refl, ap, ◌∙◌, ◌≢◌, ◌⊎◌, List, [], ◌∷◌, ◌++◌, Option,
  none, some, length, get_elem?, set, get_elem?-set_self, get_elem?-set_ne, get_elem?_in, u32_mod,
  arith,
}
use distributed_leader_elect.Seque.{advance}

-- A cell that lies outside the array gives no item.
abbrev pub cons? {ℓ} : {A : Type ℓ} → Option A → List A → List A
cons? none xs = xs
cons? (some x) xs = x ∷ xs

-- Cell `i` is `n` places after `h`, round the end.
abbrev pub Reaches : ℕ → ℕ → ℕ → ℕ → Type 0
Reaches cap h n i = (h + n ≡ i) ⊎ (h + n ≡ i + cap)

advance-lt : (cap h : ℕ) → 2 * cap ≤ u32_mod → h < cap → advance cap h < cap
advance-lt cap h small hh = ground arith

advance-Reaches :
    (cap h n i : ℕ)
    → 2 * cap ≤ u32_mod
    → h < cap
    → i < cap
    → Reaches cap h (suc n) i
    → Reaches cap (advance cap h) n i
advance-Reaches cap h n i small hh hi r = ground arith

cons?-append {ℓ} :
    {A : Type ℓ} (o : Option A) (xs ys : List A) → cons? o (xs ++ ys) ≡ cons? o xs ++ ys
cons?-append none xs ys = refl
cons?-append (some x) xs ys = refl

module _ {ℓ} {A : Type ℓ} (buf : List A) (cap : ℕ) where
  -- The `n` items from index `h` on.
  abbrev pub window : ℕ → ℕ → List A
  window h zero = []
  window h (suc n) = cons? (get_elem? buf h) (window (advance cap h) n)

module _ {ℓ} {A : Type ℓ} (buf : List A) (cap : ℕ) (storage : length buf ≡ cap)
    (small : 2 * cap ≤ u32_mod) where
  window-suc :
      (h n : ℕ)
      → h < cap
      → (x : A) × (get_elem? buf h ≡ some x)
        × (window buf cap h (suc n) ≡ x ∷ window buf cap (advance cap h) n)
  window-suc h n hh = let (x, e) = get_elem?_in buf h (omega arith) in (x, e, rw (e, cons?))

  pub window_of_pos :
      (h n : ℕ)
      → h < cap
      → 0 < n
      → (x : A) × (get_elem? buf h ≡ some x)
        × (window buf cap h n ≡ x ∷ window buf cap (advance cap h) (n - 1))
  window_of_pos h zero hh hn = absurd (omega arith)
  window_of_pos h (suc n) hh hn =
      let (x, e, w) = window-suc h n hh in
      let same : suc n - 1 ≡ n = omega arith in (x, e, rw same w)

  pub length-window : (h n : ℕ) → h < cap → length (window buf cap h n) ≡ n
  length-window h zero hh = refl
  length-window h (suc n) hh =
      ground (arith, window-suc h n hh, length-window (advance cap h) n (advance-lt cap h small hh))

  -- The item at place `k` stands `k` cells after the first one.
  pub get_elem?-window :
      (h n k i : ℕ)
      → h < cap
      → i < cap
      → n ≤ cap
      → k < n
      → Reaches cap h k i
      → get_elem? (window buf cap h n) k ≡ get_elem? buf i
  get_elem?-window h zero k i hh hi hn hk r = absurd (omega arith)
  get_elem?-window h (suc n) zero i hh hi hn hk r =
      let same : h ≡ i = omega arith in ground (arith, window-suc h n hh, same)
  get_elem?-window h (suc n) (suc k) i hh hi hn hk r = ground (
    arith,
    window-suc h n hh,
    advance-Reaches cap h k i small hh hi r,
    get_elem?-window (advance cap h) n k i (advance-lt cap h small hh) hi (omega arith)
        (omega arith),
  )

  -- A write just past a window makes it longer by that item.
  pub window-set :
      (x : A) (h n i : ℕ)
      → h < cap
      → i < cap
      → n < cap
      → Reaches cap h n i
      → window (set buf i x) cap h (suc n) ≡ window buf cap h n ++ (x ∷ [])
  window-set x h zero i hh hi hn r =
      let same : h ≡ i = omega arith in rw (same, get_elem?-set_self buf i x (omega arith))
  window-set x h (suc n) i hh hi hn r =
      let apart : i ≢ h = omega arith in
      let rest =
        window-set x (advance cap h) n i (advance-lt cap h small hh) hi (omega arith)
          (advance-Reaches cap h n i small hh hi r) in
      rw (get_elem?-set_ne buf i h x apart)
        (ap (cons? (get_elem? buf h)) rest ∙ cons?-append (get_elem? buf h) _ _)
