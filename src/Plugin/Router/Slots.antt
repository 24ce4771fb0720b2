-- ===== src/Plugin/Router/Slots.antt =====
-- rusty-gasket/src/plugin/engine.rs: `collect_layers`, slot by slot.
use mathlib.Core.List.{append-nil}
use rusty_gasket.Common.{
  ℕ, ◌≡◌, refl, ap, ◌∙◌, Bool, true, false, not, List, [], ◌∷◌, ◌++◌, leb, ◌==◌, keep, concat, All,
  All-append, arith, Bool-cases, inl, inr,
}
use rusty_gasket.Common.Slices.{keep-append, keep_none, keep_whole, All-weaken}
use rusty_gasket.Plugin.Router.{
  MiddlewareSlot, transport_security, logging_slot, authentication, rate_limit, transaction, custom,
  slot_rank, TaggedLayer, insert_layer, sort_layers, collect_layers, is_transport,
  is_authentication, transport_layers, protected_layers,
}

module _ {Layer : Type 0} where
  -- The layers of one slot, in their order.
  abbrev pub in_slot : MiddlewareSlot → List (TaggedLayer Layer) → List (TaggedLayer Layer)
  in_slot s ls = keep (λ l. slot_rank l.slot == slot_rank s) ls

  abbrev pub unauthenticated : List (TaggedLayer Layer) → List (TaggedLayer Layer)
  unauthenticated ls = in_slot rate_limit ls ++ (in_slot transaction ls ++ in_slot custom ls)

  abbrev pub inner_slots : List (TaggedLayer Layer) → List (TaggedLayer Layer)
  inner_slots ls = in_slot logging_slot ls ++ (in_slot authentication ls ++ unauthenticated ls)

  abbrev slots : List (TaggedLayer Layer) → List (TaggedLayer Layer)
  slots ls = in_slot transport_security ls ++ inner_slots ls

  abbrev HasRank : MiddlewareSlot → TaggedLayer Layer → Type 0
  HasRank s l = slot_rank l.slot ≡ slot_rank s

  in_slot-HasRank :
      (s : MiddlewareSlot) (ls : List (TaggedLayer Layer)) → All (HasRank s) (in_slot s ls)
  in_slot-HasRank s [] = tt
  in_slot-HasRank s (l ∷ ls) = elim (Bool-cases (slot_rank l.slot == slot_rank s)) [
    | inl here ↦ rw here (ground (arith, here), in_slot-HasRank s ls)
    | inr other ↦ rw other (in_slot-HasRank s ls)
  ]

  -- What holds of the rank of a slot holds of all its layers.
  of_slot :
      (p : ℕ → Bool) (b : Bool) (s : MiddlewareSlot) (ls : List (TaggedLayer Layer))
      → p (slot_rank s) ≡ b
      → All (λ l. p (slot_rank l.slot) ≡ b) (in_slot s ls)
  of_slot p b s ls h =
      All-weaken (HasRank s) (λ l. p (slot_rank l.slot) ≡ b) (in_slot s ls) (λ l r. ap p r ∙ h)
        (in_slot-HasRank s ls)

  of_unauthenticated :
      (p : ℕ → Bool) (b : Bool) (ls : List (TaggedLayer Layer))
      → p 30 ≡ b
      → p 40 ≡ b
      → p 50 ≡ b
      → All (λ l. p (slot_rank l.slot) ≡ b) (unauthenticated ls)
  of_unauthenticated p b ls h j k =
      All-append (λ l. p (slot_rank l.slot) ≡ b) (in_slot rate_limit ls)
        (in_slot transaction ls ++ in_slot custom ls) (of_slot p b rate_limit ls h)
        (All-append (λ l. p (slot_rank l.slot) ≡ b) (in_slot transaction ls) (in_slot custom ls)
          (of_slot p b transaction ls j) (of_slot p b custom ls k))

  of_inner :
      (p : ℕ → Bool) (b : Bool) (ls : List (TaggedLayer Layer))
      → p 10 ≡ b
      → p 20 ≡ b
      → p 30 ≡ b
      → p 40 ≡ b
      → p 50 ≡ b
      → All (λ l. p (slot_rank l.slot) ≡ b) (inner_slots ls)
  of_inner p b ls f g h j k =
      All-append (λ l. p (slot_rank l.slot) ≡ b) (in_slot logging_slot ls)
        (in_slot authentication ls ++ unauthenticated ls) (of_slot p b logging_slot ls f)
        (All-append (λ l. p (slot_rank l.slot) ≡ b) (in_slot authentication ls) (unauthenticated ls)
          (of_slot p b authentication ls g) (of_unauthenticated p b ls h j k))

  insert_past :
      (l : TaggedLayer Layer) (xs ys : List (TaggedLayer Layer))
      → All (λ m. leb (slot_rank l.slot) (slot_rank m.slot) ≡ false) xs
      → insert_layer l (xs ++ ys) ≡ xs ++ insert_layer l ys
  unfolding insert_layer
  insert_past l [] ys h = refl
  insert_past l (x ∷ xs) ys h = rw (h.0, insert_layer) (ap (◌∷◌ x) (insert_past l xs ys h.1))

  insert_first :
      (l : TaggedLayer Layer) (ys : List (TaggedLayer Layer))
      → All (λ m. leb (slot_rank l.slot) (slot_rank m.slot) ≡ true) ys
      → insert_layer l ys ≡ l ∷ ys
  unfolding insert_layer
  insert_first l [] h = refl
  insert_first l (y ∷ ys) h = rw (h.0, insert_layer) refl

  past :
      (l : TaggedLayer Layer) (s : MiddlewareSlot) (ls ys zs : List (TaggedLayer Layer))
      → leb (slot_rank l.slot) (slot_rank s) ≡ false
      → insert_layer l ys ≡ zs
      → insert_layer l (in_slot s ls ++ ys) ≡ in_slot s ls ++ zs
  past l s ls ys zs h below =
      insert_past l (in_slot s ls) ys (of_slot (leb (slot_rank l.slot)) false s ls h)
      ∙ ap (λ r. in_slot s ls ++ r) below

  insert-slots :
      (s : MiddlewareSlot) (x : Layer) (ls : List (TaggedLayer Layer))
      → insert_layer (record { slot = s; layer = x }) (slots ls)
        ≡ slots (record { slot = s; layer = x } ∷ ls)
  insert-slots transport_security x ls =
      insert_first (record { slot = transport_security; layer = x }) (slots ls)
        (All-append (λ m. leb 0 (slot_rank m.slot) ≡ true) (in_slot transport_security ls)
          (inner_slots ls) (of_slot (leb 0) true transport_security ls refl)
          (of_inner (leb 0) true ls refl refl refl refl refl))
  insert-slots logging_slot x ls =
      let l : TaggedLayer Layer = record { slot = logging_slot; layer = x } in
      past l transport_security ls _ _ refl
        (insert_first l (inner_slots ls) (of_inner (leb 10) true ls refl refl refl refl refl))
  insert-slots authentication x ls =
      let l : TaggedLayer Layer = record { slot = authentication; layer = x } in
      past l transport_security ls _ _ refl (
        past l logging_slot ls _ _ refl (
          insert_first l (in_slot authentication ls ++ unauthenticated ls) (
            All-append (λ m. leb 20 (slot_rank m.slot) ≡ true) (in_slot authentication ls)
              (unauthenticated ls) (of_slot (leb 20) true authentication ls refl)
              (of_unauthenticated (leb 20) true ls refl refl refl))))
  insert-slots rate_limit x ls =
      let l : TaggedLayer Layer = record { slot = rate_limit; layer = x } in
      past l transport_security ls _ _ refl (
        past l logging_slot ls _ _ refl (
          past l authentication ls _ _ refl (
            insert_first l (unauthenticated ls)
              (of_unauthenticated (leb 30) true ls refl refl refl))))
  insert-slots transaction x ls =
      let l : TaggedLayer Layer = record { slot = transaction; layer = x } in
      past l transport_security ls _ _ refl (
        past l logging_slot ls _ _ refl (
          past l authentication ls _ _ refl (
            past l rate_limit ls _ _ refl (
              insert_first l (in_slot transaction ls ++ in_slot custom ls) (
                All-append (λ m. leb 40 (slot_rank m.slot) ≡ true) (in_slot transaction ls)
                  (in_slot custom ls) (of_slot (leb 40) true transaction ls refl)
                  (of_slot (leb 40) true custom ls refl))))))
  insert-slots custom x ls =
      let l : TaggedLayer Layer = record { slot = custom; layer = x } in
      past l transport_security ls _ _ refl (
        past l logging_slot ls _ _ refl (
          past l authentication ls _ _ refl (
            past l rate_limit ls _ _ refl (
              past l transaction ls _ _ refl
                (insert_first l (in_slot custom ls) (of_slot (leb 50) true custom ls refl))))))

  sort_layers-slots : (ls : List (TaggedLayer Layer)) → sort_layers ls ≡ slots ls
  unfolding sort_layers
  sort_layers-slots [] = refl
  sort_layers-slots (l ∷ ls) =
      ap (insert_layer l) (sort_layers-slots ls) ∙ insert-slots l.slot l.layer ls

  pub transport_layers-slots :
      (plugins : List (List (TaggedLayer Layer)))
      → transport_layers plugins ≡ in_slot transport_security (concat plugins)
  unfolding collect_layers
  transport_layers-slots plugins =
      let ls = concat plugins in
      ap (keep is_transport) (sort_layers-slots ls)
      ∙ keep-append is_transport (in_slot transport_security ls) (inner_slots ls)
      ∙ ap (λ r. r ++ keep is_transport (inner_slots ls))
          (keep_whole is_transport (in_slot transport_security ls)
            (of_slot (λ r. r == 0) true transport_security ls refl))
      ∙ ap (λ r. in_slot transport_security ls ++ r)
          (keep_none is_transport (inner_slots ls)
            (of_inner (λ r. r == 0) false ls refl refl refl refl refl))
      ∙ append-nil (in_slot transport_security ls)

  pub protected_layers-slots :
      (plugins : List (List (TaggedLayer Layer)))
      → protected_layers plugins ≡ inner_slots (concat plugins)
  unfolding collect_layers
  protected_layers-slots plugins =
      let ls = concat plugins in
      let q : TaggedLayer Layer → Bool = λ l. not (is_transport l) in
      ap (keep q) (sort_layers-slots ls)
      ∙ keep-append q (in_slot transport_security ls) (inner_slots ls)
      ∙ ap (λ r. r ++ keep q (inner_slots ls))
          (keep_none q (in_slot transport_security ls)
            (of_slot (λ r. not (r == 0)) false transport_security ls refl))
      ∙ keep_whole q (inner_slots ls)
          (of_inner (λ r. not (r == 0)) true ls refl refl refl refl refl)

  pub named_layers-slots :
      (plugins : List (List (TaggedLayer Layer)))
      → keep (λ l. not (is_authentication l)) (protected_layers plugins)
        ≡ in_slot logging_slot (concat plugins) ++ unauthenticated (concat plugins)
  named_layers-slots plugins =
      let ls = concat plugins in
      let q : TaggedLayer Layer → Bool = λ l. not (is_authentication l) in
      let p : ℕ → Bool = λ r. not (r == 20) in
      ap (keep q) (protected_layers-slots plugins)
      ∙ keep-append q (in_slot logging_slot ls) (in_slot authentication ls ++ unauthenticated ls)
      ∙ ap (λ r. r ++ keep q (in_slot authentication ls ++ unauthenticated ls))
          (keep_whole q (in_slot logging_slot ls) (of_slot p true logging_slot ls refl))
      ∙ ap (λ r. in_slot logging_slot ls ++ r)
          (keep-append q (in_slot authentication ls) (unauthenticated ls)
            ∙ ap (λ r. r ++ keep q (unauthenticated ls))
                (keep_none q (in_slot authentication ls) (of_slot p false authentication ls refl))
            ∙ keep_whole q (unauthenticated ls) (of_unauthenticated p true ls refl refl refl))
