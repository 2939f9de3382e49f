-- ===== src/Common/Tabulate.antt =====
-- The list of the values of a function at a range of numbers.
use relational_db_engine.Common.{
  ℕ, zero, suc, ◌+◌, ◌≤◌, ◌<◌, ◌≡◌, ◌≢◌, refl, ap, ◌∙◌, List, [], ◌∷◌, ◌++◌, some, none, length,
  get_elem?, set, arith,
}

module _ {ℓ} {A : Type ℓ} where
  -- f i, f (i + 1), ..., n values.
  unfoldable pub tabulate : ℕ → ℕ → (ℕ → A) → List A
  tabulate zero i f = []
  tabulate (suc n) i f = f i ∷ tabulate n (suc i) f

  pub length-tabulate : (n i : ℕ) (f : ℕ → A) → length (tabulate n i f) ≡ n
  unfolding tabulate
  length-tabulate zero i f = refl
  length-tabulate (suc n) i f = ap suc (length-tabulate n (suc i) f)

  pub get_elem?-tabulate :
      (n i : ℕ) (f : ℕ → A) (k : ℕ) → k < n → get_elem? (tabulate n i f) k ≡ some (f (i + k))
  unfolding tabulate
  get_elem?-tabulate zero i f k h = absurd (omega arith)
  get_elem?-tabulate (suc n) i f zero h = let e : i ≡ i + 0 = omega arith in ap (λ j. some (f j)) e
  get_elem?-tabulate (suc n) i f (suc k) h =
      let e : suc i + k ≡ i + suc k = omega arith in
      get_elem?-tabulate n (suc i) f k (omega arith) ∙ ap (λ j. some (f j)) e

  pub get_elem?-tabulate_out :
      (n i : ℕ) (f : ℕ → A) (k : ℕ) → n ≤ k → get_elem? (tabulate n i f) k ≡ none
  unfolding tabulate
  get_elem?-tabulate_out zero i f k h = refl
  get_elem?-tabulate_out (suc n) i f zero h = absurd (omega arith)
  get_elem?-tabulate_out (suc n) i f (suc k) h = get_elem?-tabulate_out n (suc i) f k (omega arith)

  pub tabulate_ext :
      (n i : ℕ) (f g : ℕ → A)
      → ((k : ℕ) → i ≤ k → k < i + n → f k ≡ g k)
      → tabulate n i f ≡ tabulate n i g
  unfolding tabulate
  tabulate_ext zero i f g h = refl
  tabulate_ext (suc n) i f g h = rw (
    h i (omega arith) (omega arith),
    tabulate_ext n (suc i) f g (λ k l m. h k (omega arith) (omega arith)),
  )

  pub tabulate-suc :
      (n i : ℕ) (f : ℕ → A) → tabulate (suc n) i f ≡ tabulate n i f ++ (f (i + n) ∷ [])
  unfolding tabulate
  tabulate-suc zero i f = let e : i ≡ i + 0 = omega arith in ap (λ j. f j ∷ []) e
  tabulate-suc (suc n) i f =
      let e : suc i + n ≡ i + suc n = omega arith in
      ap (◌∷◌ (f i)) (tabulate-suc n (suc i) f ∙ ap (λ j. tabulate n (suc i) f ++ (f j ∷ [])) e)

  -- One value exchanged.
  pub set-tabulate :
      (n i : ℕ) (f g : ℕ → A) (k : ℕ)
      → k < n
      → ((j : ℕ) → j ≢ i + k → j < i + n → f j ≡ g j)
      → set (tabulate n i f) k (g (i + k)) ≡ tabulate n i g
  unfolding tabulate
  set-tabulate zero i f g k h e = absurd (omega arith)
  set-tabulate (suc n) i f g zero h e =
      let here : i + 0 ≡ i = omega arith in
      rw (here, tabulate_ext n (suc i) f g (λ k l m. e k (omega arith) (omega arith)))
  set-tabulate (suc n) i f g (suc k) h e =
      let next : i + suc k ≡ suc i + k = omega arith in
      rw (
        next,
        set-tabulate n (suc i) f g k (omega arith) (λ j l m. e j (omega arith) (omega arith)),
        e i (omega arith) (omega arith),
      )
