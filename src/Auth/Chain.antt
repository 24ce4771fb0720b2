-- ===== src/Auth/Chain.antt =====
-- rusty-gasket/src/auth/chain.rs: `AuthChain`. A backend is a function of the request's headers and
-- URI, here of one type `Request`; the calls are awaited one after the other.
use rusty_gasket.Common.{
  List, [], ◌∷◌, ◌++◌, Option, none, some, ◌≡◌, refl, ◌≢◌, ◌↔◌, ◌⊎◌, inl, inr, All, ap, sym, ◌∙◌,
  arith,
}
use rusty_gasket.Common.Text.{Text, codes}
use rusty_gasket.Auth.Identity.{Identity}
use rusty_gasket.Auth.Errors.{AuthError, missing_credentials}

pub data UnauthenticatedPolicy : Type 0 where
  reject allow_anonymous : UnauthenticatedPolicy

-- `Result<Option<Identity>, AuthError>`
pub data AuthOutcome : Type 0 where
  ok : Option Identity → AuthOutcome
  err : AuthError → AuthOutcome

pub record AuthBackend (Request : Type 0) : Type 0 where
  pub name : Text
  pub authenticate : Request → AuthOutcome

pub record AuthChain (Request : Type 0) : Type 0 where
  pub backends : List (AuthBackend Request)
  pub fallback : UnauthenticatedPolicy

abbrev pub fall_back : UnauthenticatedPolicy → AuthOutcome
fall_back allow_anonymous = ok none
fall_back reject = err (missing_credentials (codes "No valid credentials provided"))

outcome_cases : (o : AuthOutcome) → (o ≡ ok none) ⊎ (o ≢ ok none)
outcome_cases (ok none) = inl refl
outcome_cases (ok (some i)) = inr (λ h. ground arith)
outcome_cases (err e) = inr (λ h. ground arith)

module _ {Request : Type 0} where
  abbrev pub new_chain : AuthChain Request
  new_chain = record { backends = []; fallback = reject }

  abbrev pub push_backend : AuthChain Request → AuthBackend Request → AuthChain Request
  push_backend chain b = record chain { backends = chain.backends ++ b ∷ [] }

  abbrev pub push_backends : AuthChain Request → List (AuthBackend Request) → AuthChain Request
  push_backends chain bs = record chain { backends = chain.backends ++ bs }

  abbrev pub from_backends : List (AuthBackend Request) → AuthChain Request
  from_backends bs = push_backends new_chain bs

  abbrev pub with_fallback : AuthChain Request → UnauthenticatedPolicy → AuthChain Request
  with_fallback chain policy = record chain { fallback = policy }

  unfoldable pub authenticate_with :
      List (AuthBackend Request) → UnauthenticatedPolicy → Request → AuthOutcome
  authenticate_with [] fallback request = fall_back fallback
  authenticate_with (b ∷ bs) fallback request = elim (b.authenticate request) [
    | ok (some identity) ↦ ok (some identity)
    | ok none ↦ authenticate_with bs fallback request
    | err e ↦ err e
  ]

  unfoldable pub authenticate : AuthChain Request → Request → AuthOutcome
  unfolding authenticate_with
  authenticate chain request = authenticate_with chain.backends chain.fallback request

  -- The backend has nothing to say about the request.
  abbrev pub HasNoOpinion : Request → AuthBackend Request → Type 0
  HasNoOpinion request b = b.authenticate request ≡ ok none

  -- What a chain has to answer, told without the loop: the verdict of the one backend that all the
  -- backends before it pass on to, or that of the policy when all of them pass.
  pub data Verdict (bs : List (AuthBackend Request)) (fallback : UnauthenticatedPolicy)
      (request : Request) (r : AuthOutcome) : Type 0 where
    decided :
        (front rest : List (AuthBackend Request)) (b : AuthBackend Request)
        → bs ≡ front ++ b ∷ rest
        → All (HasNoOpinion request) front
        → b.authenticate request ≡ r
        → r ≢ ok none
        → Verdict bs fallback request r
    undecided :
        All (HasNoOpinion request) bs → r ≡ fall_back fallback → Verdict bs fallback request r

  step_pass :
      (b : AuthBackend Request) (bs : List (AuthBackend Request)) (fallback : UnauthenticatedPolicy)
      (request : Request)
      → b.authenticate request ≡ ok none
      → authenticate_with (b ∷ bs) fallback request ≡ authenticate_with bs fallback request
  unfolding authenticate_with
  step_pass b bs fallback request h = rw h refl

  step_decide :
      (b : AuthBackend Request) (bs : List (AuthBackend Request)) (fallback : UnauthenticatedPolicy)
      (request : Request)
      → (o : AuthOutcome) → b.authenticate request ≡ o
      → o ≢ ok none
      → authenticate_with (b ∷ bs) fallback request ≡ o
  unfolding authenticate_with
  step_decide b bs fallback request (ok none) h n = absurd (n refl)
  step_decide b bs fallback request (ok (some i)) h n = rw (h, authenticate_with) refl
  step_decide b bs fallback request (err e) h n = rw (h, authenticate_with) refl

  Verdict-push :
      (b : AuthBackend Request) (bs : List (AuthBackend Request)) (fallback : UnauthenticatedPolicy)
      (request : Request) (r : AuthOutcome)
      → b.authenticate request ≡ ok none
      → Verdict bs fallback request r
      → Verdict (b ∷ bs) fallback request r
  Verdict-push b bs fallback request r pass (decided front rest c split none_of e n) =
      decided (b ∷ front) rest c (ap (◌∷◌ b) split) (pass, none_of) e n
  Verdict-push b bs fallback request r pass (undecided none_of e) = undecided (pass, none_of) e

  authenticate_with-Verdict :
      (bs : List (AuthBackend Request)) (fallback : UnauthenticatedPolicy) (request : Request)
      → Verdict bs fallback request (authenticate_with bs fallback request)
  unfolding authenticate_with
  authenticate_with-Verdict [] fallback request = undecided tt refl
  authenticate_with-Verdict (b ∷ bs) fallback request =
      elim (outcome_cases (b.authenticate request)) [
        | inl pass ↦ rw (step_pass b bs fallback request pass) (
            Verdict-push b bs fallback request _ pass
              (authenticate_with-Verdict bs fallback request))
        | inr opinion ↦
            rw (step_decide b bs fallback request _ refl opinion)
              (decided [] bs b refl tt refl opinion)
      ]

  authenticate_of_undecided :
      (bs : List (AuthBackend Request)) (fallback : UnauthenticatedPolicy) (request : Request)
      → All (HasNoOpinion request) bs
      → authenticate_with bs fallback request ≡ fall_back fallback
  unfolding authenticate_with
  authenticate_of_undecided [] fallback request h = refl
  authenticate_of_undecided (b ∷ bs) fallback request h =
      step_pass b bs fallback request h.0 ∙ authenticate_of_undecided bs fallback request h.1

  authenticate_of_decided :
      (front rest : List (AuthBackend Request)) (b : AuthBackend Request)
      (fallback : UnauthenticatedPolicy) (request : Request) (r : AuthOutcome)
      → All (HasNoOpinion request) front
      → b.authenticate request ≡ r
      → r ≢ ok none
      → authenticate_with (front ++ b ∷ rest) fallback request ≡ r
  authenticate_of_decided [] rest b fallback request r h e n =
      step_decide b rest fallback request r e n
  authenticate_of_decided (c ∷ front) rest b fallback request r h e n =
      step_pass c (front ++ b ∷ rest) fallback request h.0
      ∙ authenticate_of_decided front rest b fallback request r h.1 e n

  -- The chain answers `r` exactly when `r` is its verdict: no backend after the first with an opinion
  -- counts, and an error is never passed over.
  pub authenticate-Verdict :
      (chain : AuthChain Request) (request : Request) (r : AuthOutcome)
      → (authenticate chain request ≡ r) ↔ Verdict chain.backends chain.fallback request r
  unfolding authenticate
  authenticate-Verdict chain request r = (
    λ h. rw (← h) (authenticate_with-Verdict chain.backends chain.fallback request),
    λ v. elim v [
      | decided front rest b split none_of e n ↦
          rw split (authenticate_of_decided front rest b chain.fallback request r none_of e n)
      | undecided none_of e ↦
          authenticate_of_undecided chain.backends chain.fallback request none_of ∙ sym e
    ],
  )

  -- A chain that rejects by default never lets a request through without an identity.
  pub authenticate-reject :
      (chain : AuthChain Request) (request : Request)
      → chain.fallback ≡ reject
      → authenticate chain request ≢ ok none
  authenticate-reject chain request h anonymous =
      elim ((authenticate-Verdict chain request (ok none)).0 anonymous) [
        | decided front rest b split none_of e n ↦ n refl
        | undecided none_of e ↦
            let clash : ok none ≡ fall_back reject = e ∙ ap fall_back h in ground arith
      ]
