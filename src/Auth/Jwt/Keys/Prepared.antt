-- ===== src/Auth/Jwt/Keys/Prepared.antt =====
-- rusty-gasket/src/auth/backends/jwt.rs: what `prepare_jwks` makes of a document, its keys and its
-- warnings.
use rusty_gasket.Common.{
  ℕ, ◌≡◌, refl, ◌⊎◌, inl, inr, ap, sym, ◌∙◌, false, List, [], ◌∷◌, ◌++◌, Option, none, some, arith,
  if◌then◌else◌, any, In, In-append_cases, Distinct, Bool-cases,
}
use rusty_gasket.Common.Text.{Text, codes, text_eq, text_eq_iff}
use rusty_gasket.Auth.Jwt.{Algorithm, Jwk, Libraries}
use rusty_gasket.Auth.Jwt.Keys.{
  PreparedKey, warn_once, find, usable_algorithm, Preparing, prepare_entry, prepare_keys,
  prepare_jwks,
}

-- What the given warnings have to be, against the set of those given before.
pub record AreNew (before : List Text) (logs : List Text × List Text) : Type 0 where
  pub distinct : Distinct logs.1
  pub remembered : (x : Text) → In x logs.1 → In x logs.0
  pub unseen : (x : Text) → In x logs.1 → ¬ In x before
  pub kept : (x : Text) → In x before → In x logs.0

any-In : (x : Text) (xs : List Text) → any (text_eq x) xs ≡ false → ¬ In x xs
any-In x [] h m = m
any-In x (y ∷ ys) h (inl e) = let same = (text_eq_iff x y).1 e in ground arith
any-In x (y ∷ ys) h (inr m) = any-In x ys (ground arith) m

Distinct-push : (xs : List Text) (x : Text) → Distinct xs → ¬ In x xs → Distinct (xs ++ x ∷ [])
Distinct-push [] x d n = (λ m. m, tt)
Distinct-push (y ∷ ys) x d n = (
  λ m. elim (In-append_cases y ys (x ∷ []) m) [
    | inl old ↦ d.0 old
    | inr (inl same) ↦ n (inl (sym same))
    | inr (inr h) ↦ h
  ],
  Distinct-push ys x d.1 (λ m. n (inr m)),
)

warn_once-AreNew :
    (before : List Text) (reason kid : Text) (warned emitted : List Text)
    → AreNew before (warned, emitted)
    → AreNew before (warn_once reason kid (warned, emitted))
warn_once-AreNew before reason kid warned emitted h =
    let key = reason ++ (codes ":" ++ kid) in
    elim (Bool-cases (any (text_eq key) warned)) [
      | inl old ↦ rw old h
      | inr new ↦
          let absent : ¬ In key warned = any-In key warned new in
          rw new (record {
            distinct = Distinct-push emitted key h.distinct (λ m. absent (h.remembered key m));
            remembered = λ x m. elim (In-append_cases x emitted (key ∷ []) m) [
              | inl old ↦ inr (h.remembered x old)
              | inr (inl same) ↦ inl same
              | inr (inr none_left) ↦ absurd none_left
            ];
            unseen = λ x m. elim (In-append_cases x emitted (key ∷ []) m) [
              | inl old ↦ h.unseen x old
              | inr (inl same) ↦ λ b. absent (h.kept key (rw (← same) b))
              | inr (inr none_left) ↦ absurd none_left
            ];
            kept = λ x m. inr (h.kept x m);
          })
    ]

prepare_entry-AreNew :
    {Key : Type 0} (before : List Text) (i : Option Text) (a : Option Algorithm) (made : Key ⊎ Text)
    (so_far : Preparing Key)
    → AreNew before so_far.1
    → AreNew before (prepare_entry i a made so_far).1
unfolding prepare_entry
prepare_entry-AreNew before none a made (keys, (warned, emitted)) h =
    warn_once-AreNew before (codes "no `kid`") (codes "<no-kid>") warned emitted h
prepare_entry-AreNew before (some kid) none made (keys, (warned, emitted)) h =
    warn_once-AreNew before (codes "no-usable-alg") kid warned emitted h
prepare_entry-AreNew before (some kid) (some a) (inl key) (keys, logs) h = h
prepare_entry-AreNew before (some kid) (some a) (inr e) (keys, (warned, emitted)) h =
    warn_once-AreNew before (codes "decode-key-failed") kid warned emitted h

-- The key of an entry that is usable and has the `kid`.
abbrev pub usable_key :
    {Key : Type 0} → Text → Option Text → Option Algorithm → Key ⊎ Text → Option (PreparedKey Key)
usable_key kid none a made = none
usable_key kid (some k) none made = none
usable_key kid (some k) (some a) (inl key) =
    if text_eq k kid then some (record { key = key; algorithm = a }) else none
usable_key kid (some k) (some a) (inr e) = none

abbrev pub first_some {ℓ} : {A : Type ℓ} → Option A → Option A → Option A
first_some none d = d
first_some (some a) d = some a

prepare_entry-find :
    {Key : Type 0} (kid : Text) (i : Option Text) (a : Option Algorithm) (made : Key ⊎ Text)
    (so_far : Preparing Key)
    → find kid (prepare_entry i a made so_far).0
      ≡ first_some (usable_key kid i a made) (find kid so_far.0)
unfolding prepare_entry
prepare_entry-find kid none a made (keys, logs) = refl
prepare_entry-find kid (some k) none made (keys, logs) = refl
prepare_entry-find kid (some k) (some a) (inl key) (keys, logs) =
    elim (Bool-cases (text_eq k kid)) [ inl same ↦ rw same refl | inr other ↦ rw other refl ]
prepare_entry-find kid (some k) (some a) (inr e) (keys, logs) = refl

module _ {Key Material : Type 0} (lib : Libraries Key Material) where
  -- The last usable entry of the document for the `kid`, or else `d`.
  abbrev pub last_usable :
      Text → List (Jwk Material) → Option (PreparedKey Key) → Option (PreparedKey Key)
  last_usable kid [] d = d
  last_usable kid (jwk ∷ jwks) d = last_usable kid jwks (
      first_some
        (usable_key kid jwk.key_id (usable_algorithm lib jwk.key_algorithm) (lib.from_jwk jwk)) d)

  prepare_keys-find :
      (kid : Text) (jwks : List (Jwk Material)) (so_far : Preparing Key)
      → find kid (prepare_keys lib jwks so_far).0 ≡ last_usable kid jwks (find kid so_far.0)
  unfolding prepare_keys
  prepare_keys-find kid [] so_far = refl
  prepare_keys-find kid (jwk ∷ jwks) so_far =
      prepare_keys-find kid jwks _
      ∙ ap (last_usable kid jwks) (
          prepare_entry-find kid jwk.key_id (usable_algorithm lib jwk.key_algorithm)
            (lib.from_jwk jwk) so_far)

  prepare_keys-AreNew :
      (before : List Text) (jwks : List (Jwk Material)) (so_far : Preparing Key)
      → AreNew before so_far.1
      → AreNew before (prepare_keys lib jwks so_far).1
  unfolding prepare_keys
  prepare_keys-AreNew before [] so_far h = h
  prepare_keys-AreNew before (jwk ∷ jwks) so_far h = prepare_keys-AreNew before jwks _ (
      prepare_entry-AreNew before jwk.key_id (usable_algorithm lib jwk.key_algorithm)
        (lib.from_jwk jwk) so_far h)

  -- A prepared document has for each `kid` the key of the last entry that is usable and has it, so an
  -- entry that is not usable takes no other key away; and of the warnings none is given twice or was
  -- given before, and all of them, like those before, are remembered.
  pub prepare_jwks-usable :
      (jwks : List (Jwk Material)) (now : ℕ) (warned : List Text)
      → ((kid : Text)
          → find kid (prepare_jwks lib jwks now warned).0.keys ≡ last_usable kid jwks none)
        × AreNew warned (prepare_jwks lib jwks now warned).1
  unfolding prepare_jwks
  prepare_jwks-usable jwks now warned = (
    λ kid. prepare_keys-find kid jwks ([], (warned, [])),
    prepare_keys-AreNew warned jwks ([], (warned, []))
        (record {
          distinct = tt;
          remembered = λ x m. absurd m;
          unseen = λ x m. absurd m;
          kept = λ x m. m;
        }),
  )

  -- The usable entry that a key stands for.
  pub record KeyOf (jwk : Jwk Material) (kid : Text) (k : PreparedKey Key) : Type 0 where
    pub named : jwk.key_id ≡ some kid
    pub algorithm : usable_algorithm lib jwk.key_algorithm ≡ some k.algorithm
    pub made : lib.from_jwk jwk ≡ inl k.key
