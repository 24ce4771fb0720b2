-- ===== src/Db/Url.antt =====
-- rusty-gasket/src/db/config.rs: what the redaction of a database URL hides.
use rusty_gasket.Common.{
  ◌≡◌, refl, ap, ◌∙◌, true, false, [], ◌∷◌, ◌++◌, some, arith, ◌==◌, length, mem, ℕ,
}
use mathlib.Core.List.{append-nil}
use rusty_gasket.Common.Text.{Text, codes}
use rusty_gasket.Common.Chars.{first_piece}
use rusty_gasket.Db.{split_scheme, drop, redact_url_userinfo}

first_piece-append :
    (sep : ℕ) (s t : Text) → mem sep s ≡ false → first_piece sep (s ++ t) ≡ s ++ first_piece sep t
first_piece-append sep [] t h = refl
first_piece-append sep (c ∷ s) t h =
    let other : (c == sep) ≡ false = ground arith in
    rw other (ap (◌∷◌ c) (first_piece-append sep s t (ground arith)))

drop-length : (s t : Text) → drop (length s) (s ++ t) ≡ t
drop-length [] t = refl
drop-length (c ∷ s) t = drop-length s t

mem_middle : (k : ℕ) (s t : Text) → mem k (s ++ k ∷ t) ≡ true
mem_middle k [] t = ground arith
mem_middle k (c ∷ s) t = ground (arith, mem_middle k s t)

split_scheme-append :
    (scheme rest : Text)
    → mem 58 scheme ≡ false
    → split_scheme (scheme ++ (codes "://" ++ rest)) ≡ some (scheme ++ codes "://", rest)
unfolding split_scheme
split_scheme-append [] rest h = refl
split_scheme-append (c ∷ scheme) rest h =
    let other : (58 == c) ≡ false = ground arith in
    rw (other, split_scheme, split_scheme-append scheme rest (ground arith)) refl

-- The user information of a database URL is hidden whole: any other of the same form leaves the same
-- text. The scheme has no colon, and the user information neither an `@` nor a `/` of its own.
redact_url_userinfo-hides :
    (scheme userinfo tail : Text)
    → mem 58 scheme ≡ false
    → mem 64 userinfo ≡ false
    → mem 47 userinfo ≡ false
    → redact_url_userinfo (scheme ++ (codes "://" ++ (userinfo ++ 64 ∷ tail)))
      ≡ scheme ++ codes "://" ++ (codes "***" ++ 64 ∷ tail)
unfolding redact_url_userinfo
redact_url_userinfo-hides scheme userinfo tail hs ha hp =
    let rest = userinfo ++ 64 ∷ tail in
    let authority : first_piece 47 rest ≡ userinfo ++ 64 ∷ first_piece 47 tail =
      first_piece-append 47 userinfo (64 ∷ tail) hp in
    let there : mem 64 (first_piece 47 rest) ≡ true =
      ap (mem 64) authority ∙ mem_middle 64 userinfo (first_piece 47 tail) in
    let user : first_piece 64 (first_piece 47 rest) ≡ userinfo =
      ap (first_piece 64) authority
      ∙ first_piece-append 64 userinfo (64 ∷ first_piece 47 tail) ha
      ∙ append-nil userinfo in
    rw
      (
        split_scheme-append scheme rest hs,
        redact_url_userinfo,
        there,
        user,
        drop-length userinfo (64 ∷ tail),
      )
      refl
