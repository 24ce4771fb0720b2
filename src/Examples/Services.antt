-- ===== src/Examples/Services.antt =====
-- Concrete inputs for rusty-gasket/src: cache.rs, rate_limit.rs, error.rs, extract.rs and health.rs.
use rusty_gasket.Common.{
  ℕ, zero, suc, ◌+◌, min, ◌-◌, ◌*◌, ◌≤◌, ◌<◌, ◌≡◌, ◌⊎◌, refl, ◌↔◌, true, false, List, [], ◌∷◌,
  Option, none, some, arith, any, length, ltb, if◌then◌else◌,
}
use rusty_gasket.Common.Text.{Text, codes, text_eq}
use rusty_gasket.Common.Chars.{trim}
use rusty_gasket.Http.{Response, body, ApiError, json_error, with_details}
use rusty_gasket.Cache.{new_key, part, parts, ok, namespaced_key}
use rusty_gasket.Cache.Parse.{parse_key}
use rusty_gasket.Cache.Keys.{namespaced_key-parse}
use rusty_gasket.RateLimit.{
  RateLimitConfig, Parts, new_forwarded_ip_key, forwarded_entries, parse_forwarded_ip,
  forwarded_ip_key, ip_address_key, rate_limit_middleware,
}
use rusty_gasket.RateLimit.Laws.{
  Passed, by_client, joined, forwarded_ip_key-unspoofable, rate_limit_middleware-limits,
}
use rusty_gasket.Extract.{extracted, ValidationError, Pagination, offset, pagination}
use rusty_gasket.Extract.Laws.{pagination-safe}
use rusty_gasket.Health.{HealthStatus, degraded}

abbrev user_key : Text
user_key = codes "app:users:a%3Ab"

user_key_made :
    namespaced_key (codes "app") (parts (new_key (codes "users")) (codes "a:b" ∷ [])) ≡ ok user_key
unfolding namespaced_key new_key part
user_key_made = refl

namespaced_key-parse_example : parse_key user_key ≡ codes "app" ∷ codes "users" ∷ codes "a:b" ∷ []
namespaced_key-parse_example =
    namespaced_key-parse (codes "app") (codes "users") (codes "a:b" ∷ []) user_key
      (omega arith, (omega arith, (omega arith, tt)))
      (omega arith, (omega arith, (omega arith, (omega arith, (omega arith, tt)))))
      ((omega arith, (omega arith, (omega arith, tt))), tt) user_key_made

-- Addresses are the texts that are not empty and do not start with a letter.
abbrev parse_ip : Text → Option Text
parse_ip [] = none
parse_ip (c ∷ s) = if ltb c 65 then some (c ∷ s) else none

abbrev proxied : Parts
proxied = record {
  forwarded_for = some (codes "evil, 9.9.9.9") ∷ [];
  connect_info = some (codes "10.0.0.1");
  subject = none;
}

proxied-Passed : Passed (some (codes "evil, 9.9.9.9") ∷ []) (codes " 9.9.9.9" ∷ [])
proxied-Passed =
    joined [] [] (codes "evil") (codes " 9.9.9.9") (by_client (some (codes "evil") ∷ [])) (record {
      no_comma = (refl, (refl, (refl, (refl, (refl, (refl, (refl, (refl, tt))))))));
      filled = refl;
    })

proxied_parsed :
    parse_forwarded_ip parse_ip parse_ip (trim (codes " 9.9.9.9")) ≡ some (codes "9.9.9.9")
unfolding parse_forwarded_ip
proxied_parsed = refl

forwarded_ip_key-unspoofable_example :
    forwarded_ip_key parse_ip parse_ip (new_forwarded_ip_key 1) proxied ≡ some (codes "9.9.9.9")
forwarded_ip_key-unspoofable_example =
    forwarded_ip_key-unspoofable parse_ip parse_ip 1 proxied (codes " 9.9.9.9") (codes "9.9.9.9") []
      proxied-Passed refl proxied_parsed

-- The value that the proxy extended has an opaque byte of the client's: the key is the peer's address.
opaque_value :
    forwarded_ip_key parse_ip parse_ip
      (new_forwarded_ip_key 1)
      (record proxied { forwarded_for = none ∷ [] })
    ≡ some (codes "10.0.0.1")
unfolding forwarded_ip_key
opaque_value = refl

few_entries : length (forwarded_entries proxied) < 3
unfolding forwarded_entries
few_entries = omega arith

-- A limiter that counts the calls that it allows still.
abbrev check_key : ℕ → Text → ℕ × Option ℕ
check_key zero key = (zero, some 30)
check_key (suc n) key = (n, none)

abbrev limits : RateLimitConfig
limits = record { enabled = true; requests_per_minute = 60; burst_size = 10; exempt_keys = [] }

abbrev digits : ℕ → Text
digits n = codes "31"

abbrev hello : Response ℕ
hello = record { status = 200; headers = []; payload = body 7 }

rate_limit_middleware-limits_example :
    ((rate_limit_middleware check_key digits
        (codes "c-1")
        limits
        ip_address_key
        hello
        0
        proxied).forwarded
      ≡ false)
    ↔ ((key : Text) × (secs : ℕ) × (limits.enabled ≡ true)
        × (ip_address_key proxied ≡ some key)
        × (any (text_eq key) limits.exempt_keys ≡ false)
        × ((check_key 0 key).1 ≡ some secs)
        × ((rate_limit_middleware check_key digits
              (codes "c-1")
              limits
              ip_address_key
              hello
              0
              proxied).response
            ≡ record {
              status = 429;
              headers = (codes "Retry-After", digits (min (secs + 1) 18446744073709551615)) ∷ [];
              payload = json_error (
                  with_details
                    (codes "RATE_LIMIT_EXCEEDED")
                    (codes "Too many requests")
                    (codes "c-1")
                    []);
            }))
rate_limit_middleware-limits_example =
    rate_limit_middleware-limits check_key digits (codes "c-1") limits ip_address_key hello 0
      proxied

abbrev hidden : Text → ApiError
hidden t = record {
  error_code = codes "INTERNAL";
  status_code = 500;
  expose_details = false;
  details = [];
  to_string = t;
}

abbrev third : Pagination
third = record { page = 3; limit = 500 }

third_page :
    pagination {Body = ℕ} (codes "c-1") (some (record { page = some 3; limit = some 900 }))
    ≡ extracted third
unfolding pagination
third_page = refl

abbrev no_errors : ℕ → Option (List ValidationError)
no_errors n = none

abbrev components : List (Text × Option HealthStatus)
components = (codes "db", some degraded) ∷ (codes "cache", none) ∷ []

pagination-safe_example :
    (1 ≤ third.page)
    × (1 ≤ third.limit)
    × (third.limit ≤ 500)
    × ((36893488147419103 < third.page) ⊎ (offset third ≡ (third.page - 1) * third.limit))
pagination-safe_example =
    pagination-safe (codes "c-1") (some (record { page = some 3; limit = some 900 })) third
      third_page
