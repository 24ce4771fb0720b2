-- ===== src/Cache/Keys.antt =====
-- What the cache's keys promise: different requests never share a key, and a key is refused for its
-- length alone.
use rusty_gasket.Common.{
  ◌<◌, ◌≤◌, false, List, [], ◌∷◌, ◌++◌, ◌≡◌, refl, ap, sym, ◌∙◌, ◌↔◌, All, All-append, arith, any,
  length, length-append,
}
use rusty_gasket.Common.Text.{Text}
use rusty_gasket.Common.Slices.{All-weaken}
use rusty_gasket.Cache.{
  encode_key_part, CacheKey, new_key, part, parts, ok, is_blank, validate_memcached_key,
  namespaced_key,
}
use rusty_gasket.Cache.Parse.{
  IsBytes, IsKeyByte, parse_key, parse_key-prefixed, parse_key-new_key, encode_key_part-IsKeyByte,
}

validate-ok : (s k : Text) → validate_memcached_key s ≡ ok k → s ≡ k
unfolding validate_memcached_key
validate-ok [] k h = absurd (ground arith)
validate-ok (b ∷ bs) k h = ground arith

-- The key that goes to the backend gives back the namespace, the area and every part, byte for
-- byte, so that two different keys never meet, wherever a `:` or a `%` stands in them.
pub namespaced_key-parse :
    (namespace area : Text) (vs : List Text) (k : Text)
    → IsBytes namespace
    → IsBytes area
    → All IsBytes vs
    → namespaced_key namespace (parts (new_key area) vs) ≡ ok k
    → parse_key k ≡ namespace ∷ area ∷ vs
unfolding namespaced_key
namespaced_key-parse namespace area vs k hn ha hv h =
    let key = parts (new_key area) vs in
    let same = validate-ok (encode_key_part namespace ++ 58 ∷ key.as_str) k h in
    ap parse_key (sym same)
    ∙ parse_key-prefixed namespace key.as_str hn
    ∙ ap (◌∷◌ namespace) (parse_key-new_key area vs ha hv)

any-is_blank : (s : Text) → All (λ c. is_blank c ≡ false) s → any is_blank s ≡ false
any-is_blank [] h = refl
any-is_blank (c ∷ s) h = rw (h.0) (any-is_blank s h.1)

encode-unblank : (bs : Text) → All (λ c. is_blank c ≡ false) (encode_key_part bs)
encode-unblank bs =
    All-weaken IsKeyByte (λ c. is_blank c ≡ false) (encode_key_part bs)
      (λ c h. ground (arith, h.0, h.1)) (encode_key_part-IsKeyByte bs)

parts-unblank :
    (k : CacheKey) (vs : List Text)
    → All (λ c. is_blank c ≡ false) k.as_str
    → All (λ c. is_blank c ≡ false) (parts k vs).as_str
unfolding part
parts-unblank k [] h = h
parts-unblank k (v ∷ vs) h = parts-unblank (part k v) vs (
    All-append (λ c. is_blank c ≡ false) k.as_str (58 ∷ encode_key_part v) h
      (ground arith, encode-unblank v))

validate-short :
    (s : Text)
    → 0 < length s
    → All (λ c. is_blank c ≡ false) s
    → (validate_memcached_key s ≡ ok s) ↔ (length s ≤ 250)
unfolding validate_memcached_key
validate-short [] p h = absurd (omega arith)
validate-short (b ∷ bs) p h =
    let clean : any is_blank (b ∷ bs) ≡ false = any-is_blank (b ∷ bs) h in
    (λ e. ground arith, λ short. ground arith)

-- A key made with `CacheKey::new` and `part` is accepted exactly when, with the namespace, it is at
-- most 250 bytes long.
pub namespaced_key-length :
    (namespace area : Text) (vs : List Text)
    → let k = encode_key_part namespace ++ 58 ∷ (parts (new_key area) vs).as_str in
      (namespaced_key namespace (parts (new_key area) vs) ≡ ok k) ↔ (length k ≤ 250)
unfolding namespaced_key new_key
namespaced_key-length namespace area vs =
    let key = parts (new_key area) vs in
    validate-short (encode_key_part namespace ++ 58 ∷ key.as_str)
      (omega (arith, length-append (encode_key_part namespace) (58 ∷ key.as_str)))
      (All-append (λ c. is_blank c ≡ false) (encode_key_part namespace) (58 ∷ key.as_str)
        (encode-unblank namespace)
        (ground arith, parts-unblank (new_key area) vs (encode-unblank area)))
