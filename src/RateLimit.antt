-- ===== src/RateLimit.antt =====
-- rusty-gasket/src/rate_limit.rs: the configuration, the keys and the middleware. The limiter is the
-- governor crate's: `check_key` is a function of its state and a key, which returns the next state
-- and, when the key is over its quota, the seconds to wait. The cleanup task is not modelled.
pub mod Subject
pub mod Laws
use rusty_gasket.Common.{
  ℕ, zero, suc, ◌+◌, ◌-◌, min, max, Bool, true, false, not, ◌&&◌, ◌||◌, List, [], ◌∷◌, ◌++◌, map,
  Option, none, some, if◌then◌else◌, any, keep, length, get_elem?, ltb,
}
use rusty_gasket.Common.Text.{Text, codes, text_eq}
use rusty_gasket.Common.Chars.{trim, is_empty, lowercase, split}
use rusty_gasket.Http.{Response, Payload, json_error, with_details}
use rusty_gasket.RateLimit.Subject.{RateLimitSubject}

-- The words that turn the limiter off.
abbrev pub off_words : List Text
off_words = codes "false" ∷ codes "0" ∷ codes "no" ∷ codes "off" ∷ codes "disabled" ∷ []

unfoldable pub parse_enabled : Option Text → Bool
parse_enabled none = true
parse_enabled (some v) = not (any (text_eq (lowercase (trim v))) off_words)

pub record RateLimitConfig : Type 0 where
  pub enabled : Bool
  pub requests_per_minute : ℕ
  pub burst_size : ℕ
  pub exempt_keys : List Text

-- A variable as a nonzero number, or the default; `parse` is `str::parse::<u32>`.
abbrev pub nonzero_or : (Text → Option ℕ) → Option Text → ℕ → ℕ
nonzero_or parse none d = d
nonzero_or parse (some v) d = elim (parse v) [ none ↦ d | some zero ↦ d | some (suc n) ↦ suc n ]

unfoldable pub from_env : (Text → Option ℕ) → (Text → Option Text) → RateLimitConfig
unfolding parse_enabled
from_env parse env = record {
  enabled = parse_enabled (env (codes "RATE_LIMIT_ENABLED"));
  requests_per_minute = nonzero_or parse (env (codes "RATE_LIMIT_REQUESTS_PER_MINUTE")) 60;
  burst_size = nonzero_or parse (env (codes "RATE_LIMIT_BURST_SIZE")) 10;
  exempt_keys = [];
}

-- What the keys read of a request: what `to_str` gives for each `x-forwarded-for` value, in header order,
-- the peer's address, and the subject that the authentication left.
pub record Parts : Type 0 where
  pub forwarded_for : List (Option Text)
  pub connect_info : Option Text
  pub subject : Option RateLimitSubject

unfoldable pub client_id_key : Parts → Option Text
client_id_key parts = elim parts.subject [ none ↦ none | some s ↦ some s.as_str ]

unfoldable pub ip_address_key : Parts → Option Text
ip_address_key parts = parts.connect_info

-- `ip` and `socket_ip` are `str::parse` to an `IpAddr` and to a `SocketAddr`, with the address as text.
unfoldable pub parse_forwarded_ip : (Text → Option Text) → (Text → Option Text) → Text → Option Text
parse_forwarded_ip ip socket_ip raw = elim (ip (trim raw)) [
  | some a ↦ some a
  | none ↦ socket_ip (trim raw)
]

abbrev pub or_else : Option Text → Option Text → Option Text
or_else none other = other
or_else (some t) other = some t

-- A value with a byte that is not visible ASCII is dropped whole.
abbrev pub split_all : List (Option Text) → List Text
split_all [] = []
split_all (none ∷ vs) = split_all vs
split_all (some v ∷ vs) = split 44 v ++ split_all vs

-- All of the addresses, oldest first.
unfoldable pub forwarded_entries : Parts → List Text
forwarded_entries parts = keep (λ s. not (is_empty s)) (map trim (split_all parts.forwarded_for))

pub record ForwardedIpKey : Type 0 where
  pub trusted_hops : ℕ

abbrev pub new_forwarded_ip_key : ℕ → ForwardedIpKey
new_forwarded_ip_key trusted_hops = record { trusted_hops = max trusted_hops 1 }

-- The entry `hops` from the right; `checked_sub` makes it nothing when there are fewer.
unfoldable pub candidate : List Text → ℕ → Option Text
candidate entries hops =
    if ltb (length entries) hops then none else get_elem? entries (length entries - hops)

unfoldable pub forwarded_ip_key :
    (Text → Option Text) → (Text → Option Text) → ForwardedIpKey → Parts → Option Text
unfolding parse_forwarded_ip forwarded_entries candidate
forwarded_ip_key ip socket_ip key parts =
    or_else
      (elim (candidate (forwarded_entries parts) key.trusted_hops) [
        | none ↦ none
        | some c ↦ parse_forwarded_ip ip socket_ip c
      ])
      parts.connect_info

-- A run: the limiter's next state, the response, and whether the rest of the stack ran.
pub record Limited (Limiter Body : Type 0) : Type 0 where
  pub limiter : Limiter
  pub response : Response Body
  pub forwarded : Bool

-- `as_secs().saturating_add(1)` on 64 bits.
abbrev pub retry_after : ℕ → ℕ
retry_after secs = min (secs + 1) 18446744073709551615

unfoldable pub too_many_requests : {Body : Type 0} → (ℕ → Text) → Text → ℕ → Response Body
too_many_requests to_string cid secs = record {
  status = 429;
  headers = (codes "Retry-After", to_string (retry_after secs)) ∷ [];
  payload =
      json_error (with_details (codes "RATE_LIMIT_EXCEEDED") (codes "Too many requests") cid []);
}

module _ {Limiter Body : Type 0} where
  -- `next.run`
  abbrev pub pass : Limiter → Response Body → Limited Limiter Body
  pass limiter next = record { limiter = limiter; response = next; forwarded = true }

  unfoldable pub rate_limit_middleware :
      (Limiter → Text → Limiter × Option ℕ)
      → (ℕ → Text)
      → Text
      → RateLimitConfig
      → (Parts → Option Text)
      → Response Body
      → Limiter
      → Parts
      → Limited Limiter Body
  unfolding too_many_requests
  rate_limit_middleware check_key to_string cid config extract_key next limiter parts =
      if not config.enabled then pass limiter next else elim (extract_key parts) [
        | none ↦ pass limiter next
        | some key ↦
            if any (text_eq key) config.exempt_keys
            then pass limiter next
            else (let (limiter', verdict) = check_key limiter key in
                elim verdict [
                  | none ↦ pass limiter' next
                  | some secs ↦ record {
                    limiter = limiter';
                    response = too_many_requests to_string cid secs;
                    forwarded = false;
                  }
                ])
      ]
