-- ===== src/Core/Exec.antt =====
-- A method that changes an object and returns a Result: what was written before an early return
-- stays written.
pub mod Cases
pub mod Keeping
pub mod Ensures
pub mod After
use relational_db_engine.Core.Status.{StatusCode, Result, ok, err, fault}

abbrev pub Exec {ℓ} : Type ℓ → Type ℓ → Type ℓ
Exec S A = S → Result A × S

-- A result that the caller examines.
pub data Tried {ℓ} (A : Type ℓ) : Type ℓ where
  done : A → Tried A
  failed : StatusCode → Tried A

module _ {ℓ} {S A : Type ℓ} where
  abbrev pub return : A → Exec S A
  return a s = (ok a, s)

  abbrev pub fail : StatusCode → Exec S A
  fail c s = (err c, s)

  abbrev pub gets : (S → A) → Exec S A
  gets f s = (ok (f s), s)

  -- A computation that does not change the object.
  abbrev pub lift : Result A → Exec S A
  lift r s = (r, s)

  abbrev trap : Result A → S → Result (Tried A) × S
  trap (ok a) s = (ok (done a), s)
  trap (err c) s = (ok (failed c), s)
  trap fault s = (fault, s)

  -- `const auto result = call()`: the caller looks at the result itself.
  abbrev pub attempt : Exec S A → Exec S (Tried A)
  attempt m s = let (r, s') = m s in trap r s'

module _ {ℓ} {S A B : Type ℓ} where
  abbrev continue : Result A → (A → Exec S B) → Exec S B
  continue (ok a) f s = f a s
  continue (err c) f s = (err c, s)
  continue fault f s = (fault, s)

  -- The status of the first call, if it is not Ok, is returned.
  infixl 5 ◌>>=◌
  abbrev pub ◌>>=◌ : Exec S A → (A → Exec S B) → Exec S B
  ◌>>=◌ m f s = let (r, s') = m s in continue r f s'

infixl 5 ◌>>◌
abbrev pub ◌>>◌ {ℓ} : {S A B : Type ℓ} → Exec S A → Exec S B → Exec S B
m >> n = m >>= λ _. n

abbrev pub modify : {S : Type 0} → (S → S) → Exec S (Unit {0})
modify f s = (ok tt, f s)

-- A call of a member object: `part` reads it, `put` stores it.
abbrev pub zoom : {S P A : Type 0} → (S → P) → (P → S → S) → Exec P A → Exec S A
zoom part put m s = let (r, p) = m (part s) in (r, put p s)
