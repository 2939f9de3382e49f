-- ===== src/Core/Exec/Ensures.antt =====
-- What is known of a result, from whatever object a call starts.
use relational_db_engine.Common.{◌≡◌, refl, subst}
use relational_db_engine.Core.Status.{Result, ok, err, fault}
use relational_db_engine.Core.Exec.{Exec, return, lift, ◌>>=◌, ◌>>◌}
use relational_db_engine.Core.Exec.Cases.{bind_cases}

-- A result that is given has the property.
abbrev pub Given : {A : Type 0} → (A → Type 0) → Result A → Type 0
Given P (ok a) = P a
Given P (err c) = Unit {0}
Given P fault = Unit {0}

pub record Ensures {S A : Type 0} (m : Exec S A) (P : A → Type 0) : Type 0 where
  pub given : (s : S) → Given P (m s).0

module _ {S B : Type 0} {P : B → Type 0} where
  pub Ensures-return : (b : B) → P b → Ensures (return {S = S} b) P
  Ensures-return b p = record { given = λ s. p }

  module _ {A : Type 0} (Q : A → Type 0) {m : Exec S A} (k : A → Exec S B) where
    pub Ensures-bind : Ensures m Q → ((a : A) → Q a → Ensures (k a) P) → Ensures (m >>= k) P
    Ensures-bind first rest = record {
      given = λ s.
          bind_cases (λ run. Given P run.0) m s k
            (λ a t e. (rest a (subst (λ run. Given Q run.0) e (first.given s))).given t)
            (λ c t e. tt) (λ t e. tt);
    }

  module _ {A : Type 0} (m : Exec S A) (k : A → Exec S B) where
    pub Ensures-any : ((a : A) → Ensures (k a) P) → Ensures (m >>= k) P
    Ensures-any rest =
        Ensures-bind (λ a. Unit {0}) k (record { given = λ s. anything (m s).0 }) (λ a u. rest a)
      where
        anything : (r : Result A) → Given (λ a. Unit {0}) r
        anything (ok a) = tt
        anything (err c) = tt
        anything fault = tt

  module _ {A : Type 0} (r : Result A) (k : A → Exec S B) where
    pub Ensures-lift : ((a : A) → r ≡ ok a → Ensures (k a) P) → Ensures (lift r >>= k) P
    Ensures-lift rest = Ensures-bind (λ a. r ≡ ok a) k (record { given = λ s. itself r refl }) rest
      where
        itself : (q : Result A) → r ≡ q → Given (λ a. r ≡ ok a) q
        itself (ok a) e = e
        itself (err c) e = tt
        itself fault e = tt

  -- The same for a step that gives no value.
  pub Ensures-any_unit : (m : Exec S (Unit {0})) (k : Exec S B) → Ensures k P → Ensures (m >> k) P
  Ensures-any_unit m k rest = Ensures-any m (λ u. k) (λ u. rest)

  pub Ensures-lift_unit :
      (r : Result (Unit {0})) (k : Exec S B) → (r ≡ ok tt → Ensures k P) → Ensures (lift r >> k) P
  Ensures-lift_unit r k rest = Ensures-lift r (λ u. k) (λ u e. rest e)
