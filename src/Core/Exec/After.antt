-- ===== src/Core/Exec/After.antt =====
-- What a call that succeeds leaves behind, where one that fails keeps what a view of the object shows.
use relational_db_engine.Common.{◌≡◌, subst, ◌∙◌}
use relational_db_engine.Core.Status.{Result, ok, err, fault}
use relational_db_engine.Core.Exec.{Exec, Tried, done, failed, attempt, ◌>>=◌}
use relational_db_engine.Core.Exec.Cases.{bind_cases, attempt_cases}
use relational_db_engine.Core.Exec.Keeping.{KeepsAt}

module _ {S X B : Type 0} (view : S → X) (d : S) (Q : B → S → Type 0) where
  abbrev pub After : Result B × S → Type 0
  After (ok b, t) = Q b t
  After (err c, t) = view t ≡ view d
  After (fault, t) = Unit {0}

  module _ {A : Type 0} (s : S) (m : Exec S A) (keeps : KeepsAt view m s)
      (q : view s ≡ view d) where
    landed : (r : Result A) (t : S) → m s ≡ (r, t) → view t ≡ view d
    landed r t e = subst (λ run. view run.1 ≡ view s) e keeps ∙ q

    -- A call that keeps the view, and then the rest.
    pub After-bind :
        (k : A → Exec S B)
        → ((a : A) (t : S) → view t ≡ view d → m s ≡ (ok a, t) → After (k a t))
        → After ((m >>= k) s)
    After-bind k rest =
        bind_cases After m s k (λ a t e. rest a t (landed (ok a) t e) e)
          (λ c t e. landed (err c) t e) (λ t e. tt)

  module _ {A : Type 0} (s : S) (m : Exec S A) (keeps : KeepsAt view m s) where
    -- A call that keeps the view, and whose result the rest examines.
    pub After-attempt :
        (k : Tried A → Exec S B)
        → ((r : Tried A) (t : S) → view t ≡ view s → After (k r t))
        → After ((attempt m >>= k) s)
    After-attempt k rest =
        attempt_cases After m s k
          (λ a t e. rest (done a) t (subst (λ run. view run.1 ≡ view s) e keeps))
          (λ c t e. rest (failed c) t (subst (λ run. view run.1 ≡ view s) e keeps)) (λ t e. tt)
