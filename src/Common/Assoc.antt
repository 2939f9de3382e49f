-- ===== src/Common/Assoc.antt =====
-- std::unordered_map with numbers for keys: an association list. The order of the entries is never
-- observed by the program.
use relational_db_engine.Common.{
  ℕ, ◌≡◌, List, [], ◌∷◌, Option, none, some, arith, ◌==◌, if◌then◌else◌,
}

module _ {ℓ} {V : Type ℓ} where
  -- map.find(k)
  abbrev pub find : ℕ → List (ℕ × V) → Option V
  find k [] = none
  find k ((j, v) ∷ m) = if j == k then some v else find k m

  -- map.erase(k)
  abbrev pub erase : ℕ → List (ℕ × V) → List (ℕ × V)
  erase k [] = []
  erase k ((j, v) ∷ m) = let rest = erase k m in if j == k then rest else (j, v) ∷ rest

  -- map[k] = v
  abbrev pub assign : ℕ → V → List (ℕ × V) → List (ℕ × V)
  assign k v m = (k, v) ∷ erase k m

  -- map.insert({ k, v }), which keeps an entry that is there.
  abbrev insert_new : Option V → ℕ → V → List (ℕ × V) → List (ℕ × V)
  insert_new none k v m = (k, v) ∷ m
  insert_new (some w) k v m = m

  abbrev pub insert : ℕ → V → List (ℕ × V) → List (ℕ × V)
  insert k v m = insert_new (find k m) k v m

  pub find-erase :
      (k j : ℕ) (m : List (ℕ × V)) → find j (erase k m) ≡ (if k == j then none else find j m)
  find-erase k j [] = ground arith
  find-erase k j ((i, v) ∷ m) = ground (arith, find-erase k j m)

  pub find-assign :
      (k j : ℕ) (v : V) (m : List (ℕ × V))
      → find j (assign k v m) ≡ (if k == j then some v else find j m)
  find-assign k j v m = ground (arith, find-erase k j m)

  pub find-insert :
      (k j : ℕ) (v : V) (m : List (ℕ × V))
      → find k m ≡ none
      → find j (insert k v m) ≡ (if k == j then some v else find j m)
  find-insert k j v m e = rw e
