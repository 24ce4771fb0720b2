-- ===== src/Examples/Logging.antt =====
-- A sink that holds two lines, for rusty-gasket/src/observability/sharded.rs, and the headers of a
-- response for middleware.rs.
use mathlib.Core.List.{append-nil, Sublist}
use rusty_gasket.Common.{
  ◌≡◌, refl, Bool, true, false, List, [], ◌∷◌, ◌++◌, length, ltb, arith, inl, inr, Bool-cases,
  concat, if◌then◌else◌,
}
use rusty_gasket.Common.Text.{Text, codes}
use rusty_gasket.Http.Headers.{secure_headers, or_default, secure_default, secure_headers-get}
use rusty_gasket.Sharded.{
  default_config, Sink, LogEvent, logs, flushes, pipeline, write_pieces, log_output,
}
use rusty_gasket.Sharded.Lines.{texts_of, log_output-lines}
use rusty_gasket.Examples.Responses.{http}

abbrev push_two : List Text → Text → List Text × Bool
push_two s line = if ltb (length s) 2 then (s ++ line ∷ [], true) else (s, false)

abbrev two_lines : Sink (List Text) Text
two_lines = record {
  spawn = λ c. [];
  push = push_two;
  take_batch = λ s. (s, []);
  contents = λ s. s;
  contents_spawn = λ c. refl;
  contents_kept = λ s line kept. elim (Bool-cases (ltb (length s) 2)) [
    | inl room ↦ rw room refl
    | inr full ↦ let clash = rw full at kept in absurd (ground arith)
  ];
  contents_shed = λ s line shed. elim (Bool-cases (ltb (length s) 2)) [
    | inl room ↦ let clash = rw room at shed in absurd (ground arith)
    | inr full ↦ rw full refl
  ];
  contents_batch = λ s. append-nil s;
}

-- Three events before the first drain, of which the third is shed, and one after it.
abbrev busy : List LogEvent
busy =
    flushes
    ∷ logs (codes "d" ∷ [])
    ∷ flushes
    ∷ logs (codes "c" ∷ [])
    ∷ logs (codes "b1" ∷ codes "b2" ∷ [])
    ∷ logs (codes "a" ∷ [])
    ∷ []

log_output-lines_example :
    (lines : List Text) × Sublist lines (texts_of busy)
    × (log_output two_lines default_config busy ≡ concat lines)
log_output-lines_example = log_output-lines two_lines default_config busy

third_shed : log_output two_lines default_config busy ≡ codes "ab1b2d"
unfolding pipeline write_pieces
third_shed = refl

abbrev framed : List (Text × Text)
framed = (codes "x-frame-options", codes "SAMEORIGIN") ∷ []

secure_headers-get_example :
    http.get (secure_headers http framed) (codes "x-frame-options")
    ≡ or_default
        (http.get framed (codes "x-frame-options"))
        (secure_default (codes "x-frame-options"))
secure_headers-get_example = secure_headers-get http framed (codes "x-frame-options")

kept_and_added :
    secure_headers http framed
    ≡ (codes "referrer-policy", codes "strict-origin-when-cross-origin")
      ∷ (codes "x-content-type-options", codes "nosniff")
      ∷ (codes "x-frame-options", codes "SAMEORIGIN")
      ∷ []
unfolding secure_headers
kept_and_added = refl
