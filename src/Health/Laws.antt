-- ===== src/Health/Laws.antt =====
-- What the health endpoint answers.
use rusty_gasket.Common.{ℕ, zero, suc, List, [], ◌∷◌, Option, ◌≡◌, refl, max, ap, ◌∙◌}
use rusty_gasket.Common.Text.{Text, codes}
use rusty_gasket.Health.{
  HealthStatus, healthy, degraded, failing, unwrap_or_error, combine, overall_from, checked,
  healthcheck, http_status_of, status_text,
}

-- How bad a status is.
abbrev pub severity : HealthStatus → ℕ
severity healthy = 0
severity degraded = 1
severity failing = 2

abbrev pub worst : ℕ → List (Text × Option HealthStatus) → ℕ
worst n [] = n
worst n (c ∷ cs) = worst (max n (severity (unwrap_or_error c.1))) cs

severity-combine : (a b : HealthStatus) → severity (combine a b) ≡ max (severity a) (severity b)
severity-combine healthy healthy = refl
severity-combine healthy degraded = refl
severity-combine healthy failing = refl
severity-combine degraded healthy = refl
severity-combine degraded degraded = refl
severity-combine degraded failing = refl
severity-combine failing healthy = refl
severity-combine failing degraded = refl
severity-combine failing failing = refl

severity-overall :
    (s : HealthStatus) (cs : List (Text × Option HealthStatus))
    → severity (overall_from s (checked cs)) ≡ worst (severity s) cs
severity-overall s [] = refl
severity-overall s (c ∷ cs) =
    rw (← severity-combine s (unwrap_or_error c.1))
      (severity-overall (combine s (unwrap_or_error c.1)) cs)

-- The HTTP status and the status text of an overall severity.
abbrev pub answer : ℕ → ℕ × Text
answer zero = (200, codes "ok")
answer (suc zero) = (200, codes "degraded")
answer (suc (suc n)) = (503, codes "error")

answer-severity : (s : HealthStatus) → (http_status_of s, status_text s) ≡ answer (severity s)
answer-severity healthy = refl
answer-severity degraded = refl
answer-severity failing = refl

-- The answer is that of the worst component, where one that timed out counts as failing, whatever
-- the order of the components; every component is listed.
healthcheck-worst :
    (cs : List (Text × Option HealthStatus))
    → ((healthcheck cs).http_status, (healthcheck cs).status) ≡ answer (worst 0 cs)
unfolding healthcheck
healthcheck-worst cs =
    answer-severity (overall_from healthy (checked cs)) ∙ ap answer (severity-overall healthy cs)
