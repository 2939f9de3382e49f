-- ===== src/Core/Exec/Keeping.antt =====
-- Calls that keep what a view of the object shows, whatever they return or when they fail.
use relational_db_engine.Common.{◌≡◌, subst, ◌∙◌}
use relational_db_engine.Core.Status.{Result, ok, err, fault}
use relational_db_engine.Core.Exec.{Exec, Tried, done, failed, attempt, ◌>>=◌}
use relational_db_engine.Core.Exec.Cases.{bind_cases, attempt_cases}

module _ {S X : Type 0} (view : S → X) where
  -- If the run fails, the view is that of s.
  abbrev pub FailsKeeping : {A : Type 0} → S → Result A × S → Type 0
  FailsKeeping s (ok a, t) = Unit {0}
  FailsKeeping s (err c, t) = view t ≡ view s
  FailsKeeping s (fault, t) = Unit {0}

  abbrev pub KeepsAt : {A : Type 0} → Exec S A → S → Type 0
  KeepsAt m s = view (m s).1 ≡ view s

  landed :
      {A : Type 0} (m : Exec S A) (s : S) (r : Result A) (t : S)
      → KeepsAt m s
      → m s ≡ (r, t)
      → view t ≡ view s
  landed m s r t k e = subst (λ run. view run.1 ≡ view s) e k

  module _ {A B : Type 0} (s : S) (m : Exec S A) (keeps : KeepsAt m s) where
    pub KeepsAt-bind :
        (k : A → Exec S B)
        → ((a : A) (t : S) → view t ≡ view s → m s ≡ (ok a, t) → KeepsAt (k a) t)
        → KeepsAt (m >>= k) s
    KeepsAt-bind k rest =
        bind_cases (λ run. view run.1 ≡ view s) m s k
          (λ a t e. let p = landed m s (ok a) t keeps e in rest a t p e ∙ p)
          (λ c t e. landed m s (err c) t keeps e) (λ t e. landed m s fault t keeps e)

    pub KeepsAt-attempt :
        (k : Tried A → Exec S B)
        → ((r : Tried A) (t : S) → view t ≡ view s → KeepsAt (k r) t)
        → KeepsAt (attempt m >>= k) s
    KeepsAt-attempt k rest =
        attempt_cases (λ run. view run.1 ≡ view s) m s k
          (λ a t e. let p = landed m s (ok a) t keeps e in rest (done a) t p ∙ p)
          (λ c t e. let p = landed m s (err c) t keeps e in rest (failed c) t p ∙ p)
          (λ t e. landed m s fault t keeps e)

    pub FailsKeeping-bind :
        (d : S)
        → view s ≡ view d
        → (k : A → Exec S B) → ((a : A) (t : S) → view t ≡ view d → FailsKeeping d (k a t))
        → FailsKeeping d ((m >>= k) s)
    FailsKeeping-bind d q k rest =
        bind_cases (FailsKeeping d) m s k (λ a t e. rest a t (landed m s (ok a) t keeps e ∙ q))
          (λ c t e. landed m s (err c) t keeps e ∙ q) (λ t e. tt)

    pub FailsKeeping-attempt :
        (d : S)
        → view s ≡ view d
        → (k : Tried A → Exec S B)
        → ((r : Tried A) (t : S) → view t ≡ view d → FailsKeeping d (k r t))
        → FailsKeeping d ((attempt m >>= k) s)
    FailsKeeping-attempt d q k rest =
        attempt_cases (FailsKeeping d) m s k
          (λ a t e. rest (done a) t (landed m s (ok a) t keeps e ∙ q))
          (λ c t e. rest (failed c) t (landed m s (err c) t keeps e ∙ q)) (λ t e. tt)
