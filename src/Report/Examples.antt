-- ===== src/Report/Examples.antt =====
-- The theorems on the report at a concrete one.
use restoreguard.Common.{◌≡◌, [], ◌∷◌, ◌++◌, some, map}
use restoreguard.Report.Text.{codes}
use restoreguard.Report.{RecoveryReport, printable, pdf_escape, pdf_objects, generate_pdf}
use restoreguard.Report.Layout.{IsIndexed, generate_pdf-IsIndexed}
use restoreguard.Report.Literal.{read_literal, read_literal-pdf_escape}

abbrev report : RecoveryReport
report = record {
  generated_at = codes "2026-01-02T03:04:05Z";
  asset = codes "ERP (main)";
  source = codes "nightly dumps";
  snapshot = codes "erp.dump";
  snapshot_age = codes "2h0m0s";
  sandbox = codes "completed";
  rpo = codes "7200";
  rpo_result = codes "PASS";
  rto = codes "60";
  rto_result = codes "PASS";
  assessment = codes "VERIFIED";
  confidence = codes "95";
  validations = codes "one" ∷ codes "two" ∷ [];
  evidence = codes "checksum" ∷ [];
  limitations = codes "none";
}

generate_pdf-IsIndexed_example : IsIndexed (pdf_objects report) (generate_pdf report)
generate_pdf-IsIndexed_example = generate_pdf-IsIndexed report

read_literal-pdf_escape_example :
    read_literal (pdf_escape (codes "ERP (main)") ++ 41 ∷ codes " Tj")
    ≡ some (map printable (codes "ERP (main)"), codes " Tj")
read_literal-pdf_escape_example = read_literal-pdf_escape (codes "ERP (main)") (codes " Tj")
