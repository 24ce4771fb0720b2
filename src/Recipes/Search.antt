-- ===== src/Recipes/Search.antt =====
-- What a search of examples/recipe-api/src/routes.rs returns.
use rusty_gasket.Common.{
  ℕ, suc, ◌≤◌, ◌<◌, ◌≡◌, refl, ap, ◌∙◌, min, true, false, List, [], ◌∷◌, Option, none, some, ◌⊎◌,
  inl, inr, length, take, keep, In, ◌↔◌, arith, Bool-cases, ltb,
}
use rusty_gasket.Common.Text.{Text}
use rusty_gasket.Common.Slices.{length-take, In-take, take_whole, In-keep}
use rusty_gasket.Recipes.{
  Order, passes, limit_of, text_leb, insert_sorted, sort_orders, SearchOrdersQuery, search_page,
  search_orders, internal,
}

text_leb-total : (s t : Text) → text_leb s t ≡ false → text_leb t s ≡ true
text_leb-total [] t h = absurd (ground arith)
text_leb-total (a ∷ s) [] h = refl
text_leb-total (a ∷ s) (b ∷ t) h = ground (arith, text_leb-total s t)

-- Every order comes before the next one by its customer.
abbrev pub StartsFrom : Text → List Order → Type 0
StartsFrom customer [] = Unit
StartsFrom customer (o ∷ os) = text_leb customer o.customer ≡ true

abbrev pub AreSorted : List Order → Type 0
AreSorted [] = Unit
AreSorted (o ∷ os) = StartsFrom o.customer os × AreSorted os

insert_sorted-StartsFrom :
    (customer : Text) (o : Order) (os : List Order)
    → text_leb customer o.customer ≡ true
    → StartsFrom customer os
    → StartsFrom customer (insert_sorted o os)
unfolding insert_sorted
insert_sorted-StartsFrom customer o [] h k = h
insert_sorted-StartsFrom customer o (p ∷ os) h k =
    elim (Bool-cases (text_leb o.customer p.customer)) [
      | inl first ↦ rw (first, insert_sorted) h
      | inr later ↦ rw (later, insert_sorted) k
    ]

insert_sorted-AreSorted :
    (o : Order) (os : List Order) → AreSorted os → AreSorted (insert_sorted o os)
unfolding insert_sorted
insert_sorted-AreSorted o [] h = (tt, tt)
insert_sorted-AreSorted o (p ∷ os) h = elim (Bool-cases (text_leb o.customer p.customer)) [
  | inl first ↦ rw (first, insert_sorted) (first, h)
  | inr later ↦
      rw (later, insert_sorted)
        (
          insert_sorted-StartsFrom p.customer o os (text_leb-total o.customer p.customer later) h.0,
          insert_sorted-AreSorted o os h.1,
        )
]

sort_orders-AreSorted : (os : List Order) → AreSorted (sort_orders os)
unfolding sort_orders
sort_orders-AreSorted [] = tt
sort_orders-AreSorted (o ∷ os) =
    insert_sorted-AreSorted o (sort_orders os) (sort_orders-AreSorted os)

In-insert_sorted : (x o : Order) (os : List Order) → In x (insert_sorted o os) ↔ ((x ≡ o) ⊎ In x os)
unfolding insert_sorted
In-insert_sorted x o [] = (λ h. h, λ h. h)
In-insert_sorted x o (p ∷ os) = elim (Bool-cases (text_leb o.customer p.customer)) [
  | inl first ↦ rw (first, insert_sorted) (λ h. h, λ h. h)
  | inr later ↦
      let below = In-insert_sorted x o os in
      rw (later, insert_sorted)
        (
          λ h. elim h [
            | inl here ↦ inr (inl here)
            | inr m ↦ elim (below.0 m) [ inl own ↦ inl own | inr old ↦ inr (inr old) ]
          ],
          λ h. elim h [
            | inl own ↦ inr (below.1 (inl own))
            | inr m ↦ elim m [ inl here ↦ inl here | inr old ↦ inr (below.1 (inr old)) ]
          ],
        )
]

In-sort_orders : (x : Order) (os : List Order) → In x (sort_orders os) ↔ In x os
unfolding sort_orders
In-sort_orders x [] = (λ h. h, λ h. h)
In-sort_orders x (o ∷ os) =
    let below = In-sort_orders x os in
    let step = In-insert_sorted x o (sort_orders os) in
    (
      λ h. elim (step.0 h) [ inl own ↦ inl own | inr m ↦ inr (below.0 m) ],
      λ h. step.1 (elim h [ inl own ↦ inl own | inr m ↦ inr (below.1 m) ]),
    )

length-insert_sorted : (o : Order) (os : List Order) → length (insert_sorted o os) ≡ suc (length os)
unfolding insert_sorted
length-insert_sorted o [] = refl
length-insert_sorted o (p ∷ os) = elim (Bool-cases (text_leb o.customer p.customer)) [
  | inl first ↦ rw (first, insert_sorted) refl
  | inr later ↦ rw (later, insert_sorted) (ap suc (length-insert_sorted o os))
]

length-sort_orders : (os : List Order) → length (sort_orders os) ≡ length os
unfolding sort_orders
length-sort_orders [] = refl
length-sort_orders (o ∷ os) =
    length-insert_sorted o (sort_orders os) ∙ ap suc (length-sort_orders os)

-- With a poisoned lock a search fails as an internal error. Else it returns orders of the store that
-- pass its filter, in the order of their customers: as many as there are, and at most the limit, which
-- is at most 100. When no more pass than the limit, it returns all of them.
pub search_orders-page :
    (to_lowercase : Text → Text) (query : SearchOrdersQuery) (values : List Order)
    → let response = search_page to_lowercase query values in
      let matches = keep (passes to_lowercase query.customer) values in
      (search_orders to_lowercase query none ≡ inr internal)
      × (search_orders to_lowercase query (some values) ≡ inl response)
      × AreSorted response.orders
      × (response.limit ≤ 100)
      × (length response.orders ≡ min response.limit (length matches))
      × ((o : Order)
          → In o response.orders
          → In o values × (passes to_lowercase query.customer o ≡ true))
      × ((response.limit < length matches) ⊎ ((o : Order) → In o matches → In o response.orders))
unfolding search_page search_orders
search_orders-page to_lowercase query values =
    let limit = limit_of query.limit in
    let matches = keep (passes to_lowercase query.customer) values in
    (
      refl,
      refl,
      sort_orders-AreSorted (take limit matches),
      limit_of-bounded query.limit,
      length-sort_orders (take limit matches) ∙ length-take limit matches,
      λ o m.
          (In-keep (passes to_lowercase query.customer) o values).0
            (In-take o limit matches ((In-sort_orders o (take limit matches)).0 m)),
      elim (Bool-cases (ltb limit (length matches))) [
        | inl more ↦ inl (ground (arith, more))
        | inr all ↦ inr (λ o m.
            let whole = take_whole limit matches (ground (arith, all)) in
            (In-sort_orders o (take limit matches)).1 (rw whole m))
      ],
    )
  where
    limit_of-bounded : (o : Option ℕ) → limit_of o ≤ 100
    limit_of-bounded none = omega arith
    limit_of-bounded (some n) = omega arith
