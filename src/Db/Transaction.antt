-- ===== src/Db/Transaction.antt =====
-- rusty-gasket/src/db/transaction.rs. The pool is the result of `begin`, a query the function
-- `execute`; the mutex with the transaction is a state that its holders pass on.
use rusty_gasket.Common.{
  ℕ, zero, suc, ◌≤◌, ◌≡◌, refl, ◌⊎◌, inl, inr, ap, ◌∙◌, Bool, true, false, ◌||◌, List, [], ◌∷◌,
  ◌++◌, Option, none, some, arith, ◌==◌, keep, take, all, length, Bool-cases,
}
use rusty_gasket.Common.Text.{Text, codes}
use rusty_gasket.Common.Slices.{length-take, take_whole}
use rusty_gasket.Common.Chars.{is_ascii_alphanumeric, byte_len}
use rusty_gasket.Http.{Response, quick_error_response}
use rusty_gasket.Db.{ResolvedBackend, resolved_postgres, resolved_mysql}

abbrev pub is_id_char : ℕ → Bool
is_id_char c = is_ascii_alphanumeric c || c == 45

unfoldable pub sanitize_request_id : Text → Text
sanitize_request_id id = take 55 (keep is_id_char id)

abbrev pub app_name : Text → Text
app_name request_id = codes "gasket|" ++ sanitize_request_id request_id

-- The statement, with its one bound value.
abbrev pub tag_query : ResolvedBackend → Text
tag_query resolved_postgres = codes "SELECT set_config('application_name', $1, true)"
tag_query resolved_mysql = codes "SET @gasket_request_id = ?"

-- What the mutex holds; a panic of a holder poisons it.
pub data Cell (Tx : Type 0) : Type 0 where
  healthy poisoned : Option Tx → Cell Tx

module _ {Tx Error : Type 0} where
  unfoldable pub begin_tracked_transaction :
      (Tx ⊎ Error) → (Tx → Text → Text → Tx ⊎ Error) → Text → ResolvedBackend → Tx ⊎ Error
  begin_tracked_transaction begun execute request_id backend = elim begun [
    | inr e ↦ inr e
    | inl tx ↦ execute tx (tag_query backend) (app_name request_id)
  ]

-- What happens to the shared cell, in any order: a holder takes, or panics with the lock.
pub data Use : Type 0 where
  taking panicking : Use

module _ {Tx : Type 0} where
  abbrev pub new_request_transaction : Tx → Cell Tx
  new_request_transaction tx = healthy (some tx)

  -- `RequestTransaction::take`
  unfoldable pub take_transaction : Cell Tx → Option Tx × Cell Tx
  take_transaction (healthy held) = (held, healthy none)
  take_transaction (poisoned held) = (none, poisoned held)

  poison : Cell Tx → Cell Tx
  poison (healthy held) = poisoned held
  poison (poisoned held) = poisoned held

  -- The transactions that the uses hand out, in order.
  unfoldable pub handed_out : Cell Tx → List Use → List Tx
  unfolding take_transaction poison
  handed_out cell [] = []
  handed_out cell (panicking ∷ uses) = handed_out (poison cell) uses
  handed_out cell (taking ∷ uses) =
      let (got, cell') = take_transaction cell in
      let rest = handed_out cell' uses in elim got [ none ↦ rest | some tx ↦ tx ∷ rest ]

-- The handler's response, and whether it ran.
pub record Served (Body : Type 0) : Type 0 where
  pub response : Response Body
  pub handler_ran : Bool

abbrev request_id_or : Option Text → Text
request_id_or none = []
request_id_or (some id) = id

module _ {Tx Error Body : Type 0} (cid : Text) (execute : Tx → Text → Text → Tx ⊎ Error)
    (next : Cell Tx → Response Body) where
  unfoldable pub transaction_middleware : (Tx ⊎ Error) → ResolvedBackend → Option Text → Served Body
  unfolding begin_tracked_transaction quick_error_response
  transaction_middleware begun backend request_id =
      elim (begin_tracked_transaction begun execute (request_id_or request_id) backend) [
        | inl tx ↦ record { response = next (new_request_transaction tx); handler_ran = true }
        | inr e ↦ record {
          response =
              quick_error_response cid 503 (codes "DATABASE_ERROR")
                (codes "Service temporarily unavailable");
          handler_ran = false;
        }
      ]

-- The first use decides.
abbrev pub first_take : {Tx : Type 0} → Tx → List Use → List Tx
first_take tx (taking ∷ uses) = tx ∷ []
first_take tx _ = []

handed_out-poisoned :
    {Tx : Type 0} (held : Option Tx) (uses : List Use) → handed_out (poisoned held) uses ≡ []
unfolding handed_out
handed_out-poisoned held [] = refl
handed_out-poisoned held (taking ∷ uses) = handed_out-poisoned held uses
handed_out-poisoned held (panicking ∷ uses) = handed_out-poisoned held uses

handed_out-emptied : {Tx : Type 0} (uses : List Use) → handed_out {Tx = Tx} (healthy none) uses ≡ []
unfolding handed_out
handed_out-emptied [] = refl
handed_out-emptied (taking ∷ uses) = handed_out-emptied uses
handed_out-emptied (panicking ∷ uses) = handed_out-poisoned none uses

-- However the holders of a request's transaction take it and panic, it is handed out once at most: to
-- the first use, if that is a take, and never after a panic.
pub handed_out-once :
    {Tx : Type 0} (tx : Tx) (uses : List Use)
    → handed_out (new_request_transaction tx) uses ≡ first_take tx uses
unfolding handed_out
handed_out-once tx [] = refl
handed_out-once tx (taking ∷ uses) = ap (◌∷◌ tx) (handed_out-emptied uses)
handed_out-once tx (panicking ∷ uses) = handed_out-poisoned (some tx) uses

all-keep : (p : ℕ → Bool) (s : Text) → all p (keep p s) ≡ true
all-keep p [] = refl
all-keep p (c ∷ s) = elim (Bool-cases (p c)) [
  | inl kept ↦ rw kept (ground (arith, kept, all-keep p s))
  | inr dropped ↦ rw dropped (all-keep p s)
]

all-take : (p : ℕ → Bool) (n : ℕ) (s : Text) → all p s ≡ true → all p (take n s) ≡ true
all-take p zero s h = refl
all-take p (suc n) [] h = refl
all-take p (suc n) (c ∷ s) h = ground (arith, all-take p n s)

keep-all : (p : ℕ → Bool) (s : Text) → all p s ≡ true → keep p s ≡ s
keep-all p [] h = refl
keep-all p (c ∷ s) h =
    let first : p c ≡ true = ground arith in rw first (ap (◌∷◌ c) (keep-all p s (ground arith)))

byte_len-ids : (s : Text) → all is_id_char s ≡ true → byte_len s ≡ length s
byte_len-ids [] h = refl
byte_len-ids (c ∷ s) h = ground (arith, byte_len-ids s)

-- A sanitised request id has letters, digits and dashes only, the application name with it fits into
-- 62 bytes, and an id of at most 55 such characters, as a UUID, is kept whole.
sanitize_request_id-safe :
    (id : Text)
    → (all is_id_char (sanitize_request_id id) ≡ true)
      × (byte_len (app_name id) ≤ 62)
      × (all is_id_char id ≡ true → length id ≤ 55 → sanitize_request_id id ≡ id)
unfolding sanitize_request_id
sanitize_request_id-safe id =
    let kept = keep is_id_char id in
    let safe = all-take is_id_char 55 kept (all-keep is_id_char id) in
    let bytes = byte_len-ids (take 55 kept) safe in
    let short = length-take 55 kept in
    (
      safe,
      omega (arith, bytes, short),
      λ ids small. ap (take 55) (keep-all is_id_char id ids) ∙ take_whole 55 id small,
    )
