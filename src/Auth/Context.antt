-- ===== src/Auth/Context.antt =====
-- rusty-gasket/src/auth/context.rs: `AuthContext`, `AuthResult` and `FailedReason`.
use rusty_gasket.Common.{
  ℕ, ◌+◌, ◌≤◌, ◌≡◌, false, not, [], ◌∷◌, ◌++◌, Option, none, some, arith, ltb, if◌then◌else◌, keep,
  All, All-append, Bool-cases, inl, inr, sym, ◌∙◌,
}
use mathlib.Core.List.{append_assoc, append-nil}
use rusty_gasket.Common.Text.{Text, codes}
use rusty_gasket.Common.Chars.{len_utf8, byte_len, byte_len-append, is_control}
use rusty_gasket.Auth.Identity.{Identity}

abbrev pub max_failed_reason_len : ℕ
max_failed_reason_len = 512

-- The loop of `FailedReason::new`, with its `break`.
unfoldable pub sanitize_onto : Text → Text → Text
sanitize_onto sanitized [] = sanitized
sanitize_onto sanitized (ch ∷ raw) =
    let next = sanitize_onto (if is_control ch then sanitized else sanitized ++ ch ∷ []) raw in
    if ltb max_failed_reason_len (byte_len sanitized + len_utf8 ch) then sanitized else next

pub record FailedReason : Type 0 where
  pub as_str : Text

unfoldable pub new_failed_reason : Text → FailedReason
unfolding sanitize_onto
new_failed_reason reason = record { as_str = sanitize_onto [] reason }

pub data AuthResult : Type 0 where
  authenticated : Text → AuthResult
  anonymous : AuthResult
  failed : FailedReason → AuthResult

-- `AuthResult::category`, `failure_reason` and `Display`
abbrev pub result_category : AuthResult → Text
result_category (authenticated m) = codes "authenticated"
result_category anonymous = codes "anonymous"
result_category (failed r) = codes "failed"

abbrev pub failure_reason : AuthResult → Option Text
failure_reason (authenticated m) = none
failure_reason anonymous = none
failure_reason (failed r) = some r.as_str

abbrev pub display_result : AuthResult → Text
display_result (authenticated m) = codes "authenticated:" ++ m
display_result anonymous = codes "anonymous"
display_result (failed r) = codes "failed"

pub record AuthContext : Type 0 where
  pub identity : Option Identity
  pub client_ip : Text
  pub request_id : Text
  pub auth_result : AuthResult

sanitize_onto-bound : (s raw : Text) → byte_len s ≤ 512 → byte_len (sanitize_onto s raw) ≤ 512
unfolding sanitize_onto
sanitize_onto-bound s [] h = h
sanitize_onto-bound s (c ∷ raw) h = elim (Bool-cases (ltb 512 (byte_len s + len_utf8 c))) [
  | inl full ↦ rw full h
  | inr fits ↦ elim (Bool-cases (is_control c)) [
    | inl control ↦ rw (fits, control) (sanitize_onto-bound s raw h)
    | inr plain ↦
        rw (fits, plain)
          (sanitize_onto-bound (s ++ c ∷ []) raw (ground (arith, byte_len-append s (c ∷ []))))
  ]
]

sanitize_onto-clean :
    (s raw : Text)
    → All (λ c. is_control c ≡ false) s
    → All (λ c. is_control c ≡ false) (sanitize_onto s raw)
unfolding sanitize_onto
sanitize_onto-clean s [] h = h
sanitize_onto-clean s (c ∷ raw) h = elim (Bool-cases (ltb 512 (byte_len s + len_utf8 c))) [
  | inl full ↦ rw full h
  | inr fits ↦ elim (Bool-cases (is_control c)) [
    | inl control ↦ rw (fits, control) (sanitize_onto-clean s raw h)
    | inr plain ↦
        rw (fits, plain)
          (sanitize_onto-clean (s ++ c ∷ []) raw
            (All-append (λ c. is_control c ≡ false) s (c ∷ []) h (plain, tt)))
  ]
]

sanitize_onto-short :
    (s raw : Text)
    → byte_len s + byte_len raw ≤ 512
    → sanitize_onto s raw ≡ s ++ keep (λ c. not (is_control c)) raw
unfolding sanitize_onto
sanitize_onto-short s [] h = sym (append-nil s)
sanitize_onto-short s (c ∷ raw) h =
    let fits : ltb 512 (byte_len s + len_utf8 c) ≡ false = ground arith in
    elim (Bool-cases (is_control c)) [
      | inl control ↦ rw (fits, control) (sanitize_onto-short s raw (omega arith))
      | inr plain ↦
          rw (fits, plain)
            (sanitize_onto-short (s ++ c ∷ []) raw (omega (arith, byte_len-append s (c ∷ [])))
              ∙ append_assoc s (c ∷ []) (keep (λ c. not (is_control c)) raw))
    ]

-- A failed reason has at most 512 bytes and no control character.
pub new_failed_reason-safe :
    (reason : Text)
    → (byte_len (new_failed_reason reason).as_str ≤ 512)
      × All (λ c. is_control c ≡ false) (new_failed_reason reason).as_str
unfolding new_failed_reason
new_failed_reason-safe reason =
    (sanitize_onto-bound [] reason (omega arith), sanitize_onto-clean [] reason tt)

-- Of a reason of at most 512 bytes nothing is lost but the control characters.
pub new_failed_reason-short :
    (reason : Text)
    → byte_len reason ≤ 512
    → (new_failed_reason reason).as_str ≡ keep (λ c. not (is_control c)) reason
unfolding new_failed_reason
new_failed_reason-short reason h = sanitize_onto-short [] reason (omega arith)

-- A failed reason has at most 512 bytes and no control character, and of a reason of at most 512
-- bytes nothing but the control characters is lost.
new_failed_reason-clean :
    (reason : Text)
    → (byte_len (new_failed_reason reason).as_str ≤ 512)
      × All (λ c. is_control c ≡ false) (new_failed_reason reason).as_str
      × (byte_len reason ≤ 512
          → (new_failed_reason reason).as_str ≡ keep (λ c. not (is_control c)) reason)
new_failed_reason-clean reason =
    let (short, clean) = new_failed_reason-safe reason in
    (short, clean, λ h. new_failed_reason-short reason h)
