-- ===== src/Auth/Policy.antt =====
-- rusty-gasket/src/auth/policy.rs: `ScopePolicy`. The resource, the action and the context, which it
-- ignores, are left out, and so is `Err`, which it never returns.
use rusty_gasket.Common.{
  Bool, true, false, not, List, [], ◌∷◌, ◌++◌, Option, none, some, ◌≡◌, refl, ◌↔◌, inl, inr, arith,
  any, all, keep, In, if◌then◌else◌, Bool-cases,
}
use rusty_gasket.Common.Text.{Text, codes, text_eq_iff}
use rusty_gasket.Auth.Identity.{Identity, contains}

pub data AuthzDecision : Type 0 where
  allow : AuthzDecision
  deny : Text → AuthzDecision

pub data ScopeMatchMode : Type 0 where
  match_all match_any : ScopeMatchMode

pub record ScopePolicy : Type 0 where
  pub required_scopes : List Text
  pub match_mode : ScopeMatchMode

abbrev pub require_all : List Text → ScopePolicy
require_all scopes = record { required_scopes = scopes; match_mode = match_all }

abbrev pub require_any : List Text → ScopePolicy
require_any scopes = record { required_scopes = scopes; match_mode = match_any }

-- `[&str]::join`
abbrev pub join : Text → List Text → Text
join sep [] = []
join sep (s ∷ []) = s
join sep (s ∷ t ∷ rest) = s ++ sep ++ join sep (t ∷ rest)

abbrev pub satisfied_in : ScopeMatchMode → List Text → List Text → Bool
satisfied_in match_all scopes required = all (contains scopes) required
satisfied_in match_any scopes required = any (contains scopes) required

unfoldable pub satisfied : ScopePolicy → Identity → Bool
satisfied p i = satisfied_in p.match_mode i.scopes p.required_scopes

unfoldable pub missing_scopes : ScopePolicy → Identity → List Text
missing_scopes p i = keep (λ s. not (contains i.scopes s)) p.required_scopes

unfoldable pub authorize : ScopePolicy → Option Identity → AuthzDecision
unfolding satisfied missing_scopes
authorize p none = deny (codes "Authentication required")
authorize p (some i) =
    if satisfied p i
    then allow
    else deny (codes "Missing required scopes: " ++ join (codes ", ") (missing_scopes p i))

contains-In : (scopes : List Text) (s : Text) → (contains scopes s ≡ true) ↔ In s scopes
contains-In [] s = (λ h. ground arith, λ h. absurd h)
contains-In (t ∷ scopes) s = ground (arith, text_eq_iff s t, contains-In scopes s)

all-contains :
    (scopes required : List Text)
    → (all (contains scopes) required ≡ true) ↔ ((s : Text) → In s required → In s scopes)
all-contains scopes [] = (λ h s m. absurd m, λ h. refl)
all-contains scopes (r ∷ required) = (
  λ h s m. elim m [
    | inl here ↦ rw here ((contains-In scopes r).0 (ground arith))
    | inr later ↦ (all-contains scopes required).0 (ground arith) s later
  ],
  λ h.
      let here = (contains-In scopes r).1 (h r (inl refl)) in
      let later = (all-contains scopes required).1 (λ s m. h s (inr m)) in ground arith,
)

any-contains :
    (scopes required : List Text)
    → (any (contains scopes) required ≡ true) ↔ ((s : Text) × In s required × In s scopes)
any-contains scopes [] = (λ h. absurd (ground arith), λ h. absurd h.1)
any-contains scopes (r ∷ required) = (
  λ h. elim (Bool-cases (contains scopes r)) [
    | inl here ↦ (r, inl refl, (contains-In scopes r).0 here)
    | inr other ↦
        let (s, listed, held) = (any-contains scopes required).0 (ground arith) in
        (s, inr listed, held)
  ],
  λ h. elim h.1 [
    | inl here ↦
        let e : contains scopes h.0 ≡ true = (contains-In scopes h.0).1 h.2 in
        let e' : contains scopes r ≡ true = rw (← here) e in ground arith
    | inr later ↦ let e = (any-contains scopes required).1 (h.0, later, h.2) in ground arith
  ],
)

keep-missing :
    (scopes required : List Text) (s : Text)
    → In s (keep (λ s. not (contains scopes s)) required) ↔ (In s required × (¬ In s scopes))
keep-missing scopes [] s = (λ h. absurd h, λ h. h.0)
keep-missing scopes (r ∷ required) s = elim (Bool-cases (contains scopes r)) [
  | inl held ↦ rw held (
    λ h. let (listed, absent) = (keep-missing scopes required s).0 h in (inr listed, absent),
    λ h. elim h.0 [
      | inl here ↦ absurd (h.1 (rw here ((contains-In scopes r).0 held)))
      | inr later ↦ (keep-missing scopes required s).1 (later, h.1)
    ],
  )
  | inr absent ↦ rw absent (
    λ h. elim h [
      | inl here ↦ (
        inl here,
        λ m. let c : contains scopes r ≡ true = (contains-In scopes r).1 (rw (← here) m) in cc,
      )
      | inr later ↦
          let (listed, out) = (keep-missing scopes required s).0 later in (inr listed, out)
    ],
    λ h. elim h.0 [
      | inl here ↦ inl here
      | inr later ↦ inr ((keep-missing scopes required s).1 (later, h.1))
    ],
  )
]

abbrev pub GrantsIn : ScopeMatchMode → List Text → List Text → Type 0
GrantsIn match_all scopes required = (s : Text) → In s required → In s scopes
GrantsIn match_any scopes required = (s : Text) × In s required × In s scopes

-- Whether the identity has what the policy asks for.
abbrev pub Grants : ScopePolicy → Identity → Type 0
Grants p i = GrantsIn p.match_mode i.scopes p.required_scopes

satisfied_in-GrantsIn :
    (m : ScopeMatchMode) (scopes required : List Text)
    → (satisfied_in m scopes required ≡ true) ↔ GrantsIn m scopes required
satisfied_in-GrantsIn match_all scopes required = all-contains scopes required
satisfied_in-GrantsIn match_any scopes required = any-contains scopes required

satisfied-Grants : (p : ScopePolicy) (i : Identity) → (satisfied p i ≡ true) ↔ Grants p i
unfolding satisfied
satisfied-Grants p i = satisfied_in-GrantsIn p.match_mode i.scopes p.required_scopes

allow_of_test : (b : Bool) (t : Text) → (if b then allow else deny t) ≡ allow → b ≡ true
allow_of_test true t h = refl
allow_of_test false t h = absurd (ground arith)

-- The policy allows a caller exactly when there is an identity and it has all of the required
-- scopes, or one of them in the mode `match_any`.
pub authorize-allow :
    (p : ScopePolicy) (o : Option Identity)
    → (authorize p o ≡ allow) ↔ ((i : Identity) × (o ≡ some i) × Grants p i)
unfolding authorize
authorize-allow p none = (λ h. absurd (ground arith), λ h. absurd (ground (arith, h.1)))
authorize-allow p (some i) = (
  λ h. (i, refl, (satisfied-Grants p i).0 (allow_of_test (satisfied p i) _ h)),
  λ h.
      let same : i ≡ h.0 = ground (arith, h.1) in
      let granted : satisfied p i ≡ true = (satisfied-Grants p i).1 (rw same h.2) in
      rw granted refl,
)

-- A denied identity is told exactly the required scopes that it does not have.
pub authorize-missing :
    (p : ScopePolicy) (i : Identity)
    → ¬ Grants p i
    → (authorize p (some i)
        ≡ deny (codes "Missing required scopes: " ++ join (codes ", ") (missing_scopes p i)))
      × ((s : Text) → In s (missing_scopes p i) ↔ (In s p.required_scopes × (¬ In s i.scopes)))
unfolding authorize missing_scopes
authorize-missing p i h = elim (Bool-cases (satisfied p i)) [
  | inl granted ↦ absurd (h ((satisfied-Grants p i).0 granted))
  | inr refused ↦ (rw refused refl, keep-missing i.scopes p.required_scopes)
]
