-- ===== src/Health.antt =====
-- rusty-gasket/src/health.rs: how `/healthcheck` combines the components. The build metadata of the
-- answer is left out; a check that does not end in five seconds is `none`.
pub mod Laws
use rusty_gasket.Common.{
  ℕ, Bool, true, false, not, ◌&&◌, ◌||◌, List, [], ◌∷◌, ◌++◌, map, Option, none, some,
  if◌then◌else◌, any, ◌≡◌, refl, ◌↔◌, ◌⊎◌, inl, inr, arith, Bool-cases,
}
use rusty_gasket.Common.Text.{Text, codes}

pub data HealthStatus : Type 0 where
  healthy degraded failing : HealthStatus

pub record ComponentHealth : Type 0 where
  pub name : Text
  pub status : HealthStatus

-- `tokio::time::timeout(..).unwrap_or(HealthStatus::Error)`
abbrev pub unwrap_or_error : Option HealthStatus → HealthStatus
unwrap_or_error none = failing
unwrap_or_error (some s) = s

-- One round of the loop.
abbrev pub combine : HealthStatus → HealthStatus → HealthStatus
combine overall failing = failing
combine failing degraded = failing
combine healthy degraded = degraded
combine degraded degraded = degraded
combine overall healthy = overall

abbrev pub overall_from : HealthStatus → List ComponentHealth → HealthStatus
overall_from overall [] = overall
overall_from overall (c ∷ cs) = overall_from (combine overall c.status) cs

abbrev pub checked : List (Text × Option HealthStatus) → List ComponentHealth
checked = map (λ c. record { name = c.0; status = unwrap_or_error c.1 })

pub record Checkup : Type 0 where
  pub http_status : ℕ
  pub status : Text
  pub components : List ComponentHealth

abbrev pub status_text : HealthStatus → Text
status_text healthy = codes "ok"
status_text degraded = codes "degraded"
status_text failing = codes "error"

abbrev pub http_status_of : HealthStatus → ℕ
http_status_of healthy = 200
http_status_of degraded = 200
http_status_of failing = 503

unfoldable pub healthcheck : List (Text × Option HealthStatus) → Checkup
healthcheck contributors =
    let results = checked contributors in
    let overall = overall_from healthy results in
    record {
      http_status = http_status_of overall;
      status = status_text overall;
      components = results;
    }
