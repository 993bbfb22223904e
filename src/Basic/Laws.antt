-- ===== src/Basic/Laws.antt =====
-- src/basic/Diagnostic.cpp: reports and errors.
use gura.Prelude.{◌≡◌, ◌||◌, [], ◌∷◌, arith, String}
use gura.Basic.{Span, DiagnosticSeverity, Diagnostics, report, has_error, is_error}

-- After a report there is an error exactly when there was one before, or the report is one.
pub has_error-report :
    (severity : DiagnosticSeverity) (span : Span) (message : String) (ds : Diagnostics)
    → has_error (report severity span message ds) ≡ (has_error ds || is_error severity)
unfolding has_error report
has_error-report severity span message [] = ground arith
has_error-report severity span message (d ∷ ds) =
    ground (arith, has_error-report severity span message ds)
