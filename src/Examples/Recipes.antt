-- ===== src/Examples/Recipes.antt =====
-- Orders of the recipe service, examples/recipe-api/src/routes.rs.
use rusty_gasket.Common.{
  ℕ, ◌≡◌, ◌<◌, ◌≤◌, refl, ◌⊎◌, inl, inr, List, [], ◌∷◌, none, some, All, In, length, min, keep,
  true,
}
use rusty_gasket.Common.Text.{Text, codes}
use rusty_gasket.Common.Chars.{lowercase}
use rusty_gasket.Recipes.{Order, SearchOrdersQuery, passes, search_page, search_orders, internal}
use rusty_gasket.Recipes.Store.{Post, IsValid, Stored, orders_of, post, posts, post_order-Stored}
use rusty_gasket.Recipes.Search.{AreSorted, search_orders-page}

abbrev post_of : Text → Text → Text → List Text → Post
post_of id subject customer items = record {
  cid = codes "c-1";
  id = id;
  subject = subject;
  body = some (record { customer = customer; items = items });
}

abbrev first_post : Post
first_post = post_of (codes "1") (codes "alice") (codes " Ada ") (codes "tea" ∷ [])

abbrev blank_post : Post
blank_post = post_of (codes "2") (codes "bob") (codes "Bea") (codes "  " ∷ [])

post_order-Stored_example :
    let before = posts ℕ (first_post ∷ []) (some []) in
    let after = post {Body = ℕ} blank_post before in
    All IsValid (orders_of after.0)
    × ((after.0 ≡ before) ⊎ Stored ℕ (codes "bob") before after.0 after.1)
post_order-Stored_example = post_order-Stored ℕ (first_post ∷ []) blank_post

abbrev order_of : Text → Text → Order
order_of id customer = record {
  id = id;
  customer = customer;
  items = codes "tea" ∷ [];
  created_by = codes "alice";
}

abbrev of_ada : SearchOrdersQuery
of_ada = record { customer = some (codes "ADA"); limit = some 1 }

abbrev ada_and_bea : List Order
ada_and_bea = order_of (codes "1") (codes "Bea") ∷ order_of (codes "2") (codes "Ada") ∷ []

search_orders-page_example :
    let response = search_page lowercase of_ada ada_and_bea in
    let matches = keep (passes lowercase (some (codes "ADA"))) ada_and_bea in
    (search_orders lowercase of_ada none ≡ inr internal)
    × (search_orders lowercase of_ada (some ada_and_bea) ≡ inl response)
    × AreSorted response.orders
    × (response.limit ≤ 100)
    × (length response.orders ≡ min response.limit (length matches))
    × ((o : Order)
        → In o response.orders
        → In o ada_and_bea × (passes lowercase (some (codes "ADA")) o ≡ true))
    × ((response.limit < length matches) ⊎ ((o : Order) → In o matches → In o response.orders))
search_orders-page_example = search_orders-page lowercase of_ada ada_and_bea

-- With a limit, what a search finds depends on the order in which the map lists its values: of Bea and
-- Ada, the first customer by name is not among the first page.
first_listed :
    search_orders lowercase (record { customer = none; limit = some 1 }) (some ada_and_bea)
    ≡ inl (record { orders = order_of (codes "1") (codes "Bea") ∷ []; limit = 1 })
unfolding search_page search_orders
first_listed = refl
