-- ===== src/Core/Exec/Cases.antt =====
-- What holds after a chain of calls, by what each call may return.
use relational_db_engine.Common.{◌≡◌, refl}
use relational_db_engine.Core.Status.{StatusCode, Result, ok, err, fault}
use relational_db_engine.Core.Exec.{Exec, Tried, done, failed, attempt, ◌>>=◌}

module _ {S A B : Type 0} (P : Result B × S → Type 0) (m : Exec S A) (s : S) where
  -- m >>= k: on ok the rest runs, on an error or a fault the run ends.
  pub bind_cases :
      (k : A → Exec S B)
      → ((a : A) (s' : S) → m s ≡ (ok a, s') → P (k a s'))
      → ((c : StatusCode) (s' : S) → m s ≡ (err c, s') → P (err c, s'))
      → ((s' : S) → m s ≡ (fault, s') → P (fault, s'))
      → P ((m >>= k) s)
  bind_cases k on_ok on_err on_fault = split (m s) refl
    where
      split : (r : Result A × S) → m s ≡ r → P (((λ _. r) >>= k) s)
      split (ok a, s') e = on_ok a s' e
      split (err c, s') e = on_err c s' e
      split (fault, s') e = on_fault s' e

  -- attempt m >>= k: only a fault ends the run.
  pub attempt_cases :
      (k : Tried A → Exec S B)
      → ((a : A) (s' : S) → m s ≡ (ok a, s') → P (k (done a) s'))
      → ((c : StatusCode) (s' : S) → m s ≡ (err c, s') → P (k (failed c) s'))
      → ((s' : S) → m s ≡ (fault, s') → P (fault, s'))
      → P ((attempt m >>= k) s)
  attempt_cases k on_ok on_err on_fault = split (m s) refl
    where
      split : (r : Result A × S) → m s ≡ r → P ((attempt (λ _. r) >>= k) s)
      split (ok a, s') e = on_ok a s' e
      split (err c, s') e = on_err c s' e
      split (fault, s') e = on_fault s' e
