-- ===== src/Recipes.antt =====
-- examples/recipe-api/src/routes.rs: the orders of the recipe service, from the request bodies to the
-- store. The lock is held for a whole handler, so that a handler is one step on the store.
pub mod Store
pub mod Search
use rusty_gasket.Common.{
  ℕ, min, Bool, true, false, not, List, [], ◌∷◌, map, Option, none, some, ◌⊎◌, inl, inr, any, keep,
  take, ltb, ◌==◌, if◌then◌else◌,
}
use rusty_gasket.Common.Text.{Text, codes, text_eq}
use rusty_gasket.Common.Chars.{trim, is_empty, contains_text}
use rusty_gasket.Extract.{ValidationError, one_error, Extraction, extracted, rejected, validated}
use rusty_gasket.Http.{Response}

abbrev pub default_search_limit : ℕ
default_search_limit = 25

abbrev pub max_search_limit : ℕ
max_search_limit = 100

-- Every order has the one status there is, `Received`.
pub record Order : Type 0 where
  pub id : Text
  pub customer : Text
  pub items : List Text
  pub created_by : Text

-- `none` for a lock that a panic poisoned; the newest order first.
abbrev pub ApiState : Type 0
ApiState = Option (List Order)

pub record CreateOrderRequest : Type 0 where
  pub customer : Text
  pub items : List Text

abbrev pub is_blank : Text → Bool
is_blank s = is_empty (trim s)

abbrev pub no_items : List Text → Bool
no_items [] = true
no_items (item ∷ items) = false

unfoldable pub validate : CreateOrderRequest → Option (List ValidationError)
validate request =
    if is_blank request.customer
    then some (one_error (codes "customer") (codes "customer is required"))
    else if no_items request.items
    then some (one_error (codes "items") (codes "at least one item is required"))
    else if any is_blank request.items
    then some (one_error (codes "items") (codes "items cannot be blank"))
    else none

-- `id` is what `Uuid::now_v7` gives.
unfoldable pub into_order : Text → CreateOrderRequest → Text → Order
into_order id request created_by = record {
  id = id;
  customer = trim request.customer;
  items = map trim request.items;
  created_by = created_by;
}

-- `HashMap::insert` and `get`
abbrev pub remove_order : Text → List Order → List Order
remove_order id [] = []
remove_order id (o ∷ orders) =
    if text_eq o.id id then remove_order id orders else o ∷ remove_order id orders

abbrev pub insert_order : Order → List Order → List Order
insert_order order orders = order ∷ remove_order order.id orders

abbrev pub find_order : Text → List Order → Option Order
find_order id [] = none
find_order id (o ∷ orders) = if text_eq o.id id then some o else find_order id orders

pub data ApiError : Type 0 where
  not_found internal : ApiError

abbrev pub status_of : ApiError → ℕ
status_of not_found = 404
status_of internal = 500

unfoldable pub create_order :
    Text → Text → CreateOrderRequest → ApiState → ApiState × (Order ⊎ ApiError)
unfolding into_order
create_order id subject request none = (none, inr internal)
create_order id subject request (some orders) =
    let order = into_order id request subject in (some (insert_order order orders), inl order)

-- What `POST /v1/orders` answers: the order, the handler's error, or the extractor's response.
pub data Posted (Body : Type 0) : Type 0 where
  created : Order → Posted Body
  refused : ApiError → Posted Body
  invalid : Response Body → Posted Body

abbrev pub answer_of : {Body : Type 0} → ApiState × (Order ⊎ ApiError) → ApiState × Posted Body
answer_of (state, inl order) = (state, created order)
answer_of (state, inr e) = (state, refused e)

-- The extractor `Validated`, then the handler; `none` for a body that is no JSON request.
unfoldable pub post_order :
    {Body : Type 0}
    → Text
    → Text
    → Text
    → Option CreateOrderRequest
    → ApiState
    → ApiState × Posted Body
unfolding validated create_order validate
post_order cid id subject body state = elim (validated cid validate body) [
  | rejected response ↦ (state, invalid response)
  | extracted request ↦ answer_of (create_order id subject request state)
]

unfoldable pub get_order : Text → ApiState → Order ⊎ ApiError
get_order id none = inr internal
get_order id (some orders) = elim (find_order id orders) [
  | none ↦ inr not_found
  | some order ↦ inl order
]

pub record SearchOrdersQuery : Type 0 where
  pub customer : Option Text
  pub limit : Option ℕ

pub record SearchOrdersResponse : Type 0 where
  pub orders : List Order
  pub limit : ℕ

abbrev pub limit_of : Option ℕ → ℕ
limit_of none = min default_search_limit max_search_limit
limit_of (some limit) = min limit max_search_limit

-- `str::cmp`
abbrev pub text_leb : Text → Text → Bool
text_leb [] t = true
text_leb (a ∷ s) [] = false
text_leb (a ∷ s) (b ∷ t) =
    let rest = text_leb s t in if ltb a b then true else if a == b then rest else false

-- `sort_by` is stable.
unfoldable pub insert_sorted : Order → List Order → List Order
insert_sorted o [] = o ∷ []
insert_sorted o (p ∷ ps) =
    let rest = insert_sorted o ps in if text_leb o.customer p.customer then o ∷ p ∷ ps else p ∷ rest

unfoldable pub sort_orders : List Order → List Order
unfolding insert_sorted
sort_orders [] = []
sort_orders (o ∷ os) = insert_sorted o (sort_orders os)

module _ (to_lowercase : Text → Text) where
  abbrev pub passes : Option Text → Order → Bool
  passes none order = true
  passes (some customer) order = contains_text (to_lowercase customer) (to_lowercase order.customer)

  -- `values` are the orders as the hash map iterates over them.
  unfoldable pub search_page : SearchOrdersQuery → List Order → SearchOrdersResponse
  unfolding sort_orders
  search_page query values =
      let limit = limit_of query.limit in
      record {
        orders = sort_orders (take limit (keep (passes query.customer) values));
        limit = limit;
      }

  unfoldable pub search_orders : SearchOrdersQuery → ApiState → SearchOrdersResponse ⊎ ApiError
  search_orders query none = inr internal
  search_orders query (some values) = inl (search_page query values)
