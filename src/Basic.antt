-- ===== src/Basic.antt =====
-- include/gura/basic/SourceLocation.h and Diagnostic.h, src/basic/Diagnostic.cpp: positions and
-- the list of messages. Text is a list of bytes.
pub mod Laws
use Prim.Native.Char.{code}
use Prim.Native.String.{String}
use gura.Prelude.{ℕ, Bool, true, false, List, [], ◌∷◌, ◌++◌, ◌==◌, ◌&&◌, not}

pub record SourceLocation : Type 0 where
  pub offset : ℕ
  pub line : ℕ
  pub column : ℕ

abbrev pub origin : SourceLocation
origin = record { offset = 0; line = 1; column = 1 }

-- `SourceLocation::isValid`
unfoldable pub is_valid : SourceLocation → Bool
is_valid l = not (l.line == 0) && not (l.column == 0)

pub record Span : Type 0 where
  pub begin : SourceLocation
  pub end : SourceLocation

abbrev pub empty_span : Span
empty_span = record { begin = origin; end = origin }

-- The code points of a text: its bytes, if it is ASCII.
abbrev pub codes : String → List ℕ
codes String.[] = []
codes (String.◌∷◌ c s) = code c ∷ codes s

-- `==` on texts.
abbrev pub same_text : List ℕ → List ℕ → Bool
same_text [] [] = true
same_text (a ∷ as') (b ∷ bs) = a == b && same_text as' bs
same_text _ _ = false

pub data DiagnosticSeverity : Type 0 where
  note warning error : DiagnosticSeverity

pub record Diagnostic : Type 0 where
  pub severity : DiagnosticSeverity
  pub span : Span
  pub message : String

-- `DiagnosticEngine`: the messages in order.
abbrev pub Diagnostics : Type 0
Diagnostics = List Diagnostic

unfoldable pub report : DiagnosticSeverity → Span → String → Diagnostics → Diagnostics
report severity span message ds =
    ds ++ record { severity = severity; span = span; message = message } ∷ []

unfoldable pub report_error : Span → String → Diagnostics → Diagnostics
unfolding report
report_error span message ds = report error span message ds

abbrev pub is_error : DiagnosticSeverity → Bool
is_error error = true
is_error _ = false

unfoldable pub has_error : Diagnostics → Bool
has_error [] = false
has_error (d ∷ ds) = elim (is_error d.severity) [ true ↦ true | false ↦ has_error ds ]
