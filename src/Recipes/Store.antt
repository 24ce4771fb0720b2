-- ===== src/Recipes/Store.antt =====
-- The order store of examples/recipe-api/src/routes.rs: what a request leaves there, whatever came
-- before.
use rusty_gasket.Common.{
  ◌≡◌, refl, sym, ap, ◌∙◌, false, List, [], ◌∷◌, map, Option, none, some, ◌⊎◌, inl, inr, any, arith,
  All, Bool-cases, Option-cases, if◌then◌else◌,
}
use rusty_gasket.Common.Text.{Text, text_eq, text_eq_iff}
use rusty_gasket.Common.Chars.{trim, is_empty}
use rusty_gasket.Extract.{validated}
use rusty_gasket.Recipes.{
  Order, ApiState, CreateOrderRequest, is_blank, no_items, validate, into_order, remove_order,
  insert_order, find_order, create_order, Posted, created, post_order, get_order,
}

-- An order names a customer and has items, none of them blank.
pub record IsValid (order : Order) : Type 0 where
  pub named : is_empty order.customer ≡ false
  pub filled : no_items order.items ≡ false
  pub items_named : All (λ i. is_empty i ≡ false) order.items

map-no_items : (items : List Text) → no_items (map trim items) ≡ no_items items
map-no_items [] = refl
map-no_items (i ∷ items) = refl

any-is_blank :
    (items : List Text)
    → any is_blank items ≡ false
    → All (λ i. is_empty i ≡ false) (map trim items)
any-is_blank [] h = tt
any-is_blank (i ∷ items) h = elim (Bool-cases (is_blank i)) [
  | inl blank ↦ absurd (ground (arith, blank, h))
  | inr named ↦ (named, any-is_blank items (ground (arith, named, h)))
]

validate-none :
    (request : CreateOrderRequest)
    → validate request ≡ none
    → (is_blank request.customer ≡ false)
      × (no_items request.items ≡ false)
      × (any is_blank request.items ≡ false)
unfolding validate
validate-none request h = ground (arith, h)

into_order-IsValid :
    (id subject : Text) (request : CreateOrderRequest)
    → validate request ≡ none
    → IsValid (into_order id request subject)
unfolding into_order
into_order-IsValid id subject request h =
    let (named, filled, items) = validate-none request h in
    record {
      named = named;
      filled = map-no_items request.items ∙ filled;
      items_named = any-is_blank request.items items;
    }

remove_order-All :
    (id : Text) (orders : List Order) → All IsValid orders → All IsValid (remove_order id orders)
remove_order-All id [] h = tt
remove_order-All id (o ∷ orders) h = elim (Bool-cases (text_eq o.id id)) [
  | inl gone ↦ rw gone (remove_order-All id orders h.1)
  | inr kept ↦ rw kept (h.0, remove_order-All id orders h.1)
]

find_order-other :
    (id j : Text) (orders : List Order)
    → text_eq id j ≡ false
    → find_order j (remove_order id orders) ≡ find_order j orders
find_order-other id j [] apart = refl
find_order-other id j (o ∷ orders) apart = elim (Bool-cases (text_eq o.id id)) [
  | inl gone ↦
      let same : o.id ≡ id = (text_eq_iff o.id id).0 gone in
      let other : text_eq o.id j ≡ false = ap (λ i. text_eq i j) same ∙ apart in
      rw (gone, other) (find_order-other id j orders apart)
  | inr kept ↦
      rw kept (ap (λ r. if text_eq o.id j then some o else r) (find_order-other id j orders apart))
]

find_order-insert :
    (o : Order) (orders : List Order) → find_order o.id (insert_order o orders) ≡ some o
find_order-insert o orders = let own = (text_eq_iff o.id o.id).1 refl in rw own refl

find_order-insert_other :
    (o : Order) (orders : List Order) (id : Text)
    → text_eq o.id id ≡ false
    → find_order id (insert_order o orders) ≡ find_order id orders
find_order-insert_other o orders id apart = rw apart (find_order-other o.id id orders apart)

get_order-some :
    (id : Text) (orders : List Order) (o : Order)
    → find_order id orders ≡ some o
    → get_order id (some orders) ≡ inl o
unfolding get_order
get_order-some id orders o there = rw (there, get_order) refl

get_order-same :
    (id : Text) (os qs : List Order)
    → find_order id os ≡ find_order id qs
    → get_order id (some os) ≡ get_order id (some qs)
unfolding get_order
get_order-same id os qs same = rw (same, get_order) refl

-- The requests that were posted, the last first, each with its correlation id, the id of a new order,
-- the subject of the caller and the body.
pub record Post : Type 0 where
  pub cid : Text
  pub id : Text
  pub subject : Text
  pub body : Option CreateOrderRequest

abbrev pub orders_of : ApiState → List Order
orders_of none = []
orders_of (some orders) = orders

abbrev pub post : {Body : Type 0} → Post → ApiState → ApiState × Posted Body
post p = post_order p.cid p.id p.subject p.body

abbrev pub posts : (Body : Type 0) → List Post → ApiState → ApiState
posts Body [] state = state
posts Body (p ∷ earlier) state = (post {Body = Body} p (posts Body earlier state)).0

module _ (Body : Type 0) where
  -- What a request that changed the store has done.
  pub record Stored (subject : Text) (before after : ApiState) (answer : Posted Body) : Type 0 where
    pub order : Order
    pub answered : answer ≡ created order
    pub valid : IsValid order
    pub owned : order.created_by ≡ subject
    pub found : get_order order.id after ≡ inl order
    pub others : (id : Text) → (id ≡ order.id) ⊎ (get_order id after ≡ get_order id before)

  create-Stored :
      (subject : Text) (orders : List Order) (order : Order)
      → IsValid order
      → order.created_by ≡ subject
      → Stored subject (some orders) (some (insert_order order orders)) (created order)
  create-Stored subject orders order valid owned = record {
    order = order;
    answered = refl;
    valid = valid;
    owned = owned;
    found =
        get_order-some order.id (insert_order order orders) order (find_order-insert order orders);
    others = λ id. elim (Bool-cases (text_eq order.id id)) [
      | inl same ↦ inl (sym ((text_eq_iff order.id id).0 same))
      | inr apart ↦ inr (
          get_order-same id (insert_order order orders) orders
            (find_order-insert_other order orders id apart))
    ];
  }

  post-cases :
      (p : Post) (before : ApiState)
      → ((post {Body = Body} p before).0 ≡ before)
        ⊎ Stored p.subject before (post {Body = Body} p before).0 (post {Body = Body} p before).1
  unfolding post_order validated create_order into_order
  post-cases p before = elim (Option-cases p.body) [
    | inl malformed ↦ inl (rw (malformed, post_order) refl)
    | inr (request, read) ↦ elim (Option-cases (validate request)) [
      | inr (errors, bad) ↦ inl (rw (read, post_order, validated, bad) refl)
      | inl fine ↦
          elim before
            as (λ b.
              ((post {Body = Body} p b).0 ≡ b)
              ⊎ Stored p.subject b (post {Body = Body} p b).0 (post {Body = Body} p b).1) [
                | none ↦ inl (rw (read, post_order, validated, fine) refl)
                | some orders ↦ inr (
                    rw (read, post_order, validated, fine)
                      (create-Stored p.subject orders (into_order p.id request p.subject)
                        (into_order-IsValid p.id p.subject request fine) refl))
              ]
    ]
  ]

  post-IsValid :
      (p : Post) (before : ApiState)
      → All IsValid (orders_of before)
      → All IsValid (orders_of (post {Body = Body} p before).0)
  unfolding post_order validated create_order into_order
  post-IsValid p before h = elim (Option-cases p.body) [
    | inl malformed ↦ rw (malformed, post_order) h
    | inr (request, read) ↦ elim (Option-cases (validate request)) [
      | inr (errors, bad) ↦ rw (read, post_order, validated, bad) h
      | inl fine ↦
          elim before
              as (λ b.
                All IsValid (orders_of b) → All IsValid (orders_of (post {Body = Body} p b).0)) [
                  | none ↦ λ k. rw (read, post_order, validated, fine) k
                  | some orders ↦ λ k.
                      rw (read, post_order, validated, fine)
                        (
                          into_order-IsValid p.id p.subject request fine,
                          remove_order-All p.id orders k,
                        )
                ]
            h
    ]
  ]

  posts-IsValid : (earlier : List Post) → All IsValid (orders_of (posts Body earlier (some [])))
  posts-IsValid [] = tt
  posts-IsValid (p ∷ earlier) =
      post-IsValid p (posts Body earlier (some [])) (posts-IsValid earlier)

  -- In a service that starts without orders, after any posted requests, every order names a customer
  -- and has items, none of them blank; and the next request either leaves the store alone, or stores such
  -- an order for its caller, answers it, and `get_order` finds it under its id while it finds all others
  -- as before.
  pub post_order-Stored :
      (earlier : List Post) (p : Post)
      → let before = posts Body earlier (some []) in
        let after = post {Body = Body} p before in
        All IsValid (orders_of after.0)
        × ((after.0 ≡ before) ⊎ Stored p.subject before after.0 after.1)
  post_order-Stored earlier p =
      (posts-IsValid (p ∷ earlier), post-cases p (posts Body earlier (some [])))
