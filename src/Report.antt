-- ===== src/Report.antt =====
-- The recovery report as a PDF file (backend/internal/report/pdf.go: GeneratePDF, pdfEscape). A text
-- is the list of its code points, and a file the list of its bytes.
pub mod Text
pub mod Layout
pub mod Literal
pub mod Examples
use restoreguard.Common.{
  ℕ, zero, suc, ◌+◌, Bool, ◌||◌, List, [], ◌∷◌, ◌++◌, map, String, ltb, ◌==◌, length, if◌then◌else◌,
}
use restoreguard.Worker.World.{Bytes}
use restoreguard.Report.Text.{codes, decimal, padded}

pub record RecoveryReport : Type 0 where
  -- the time of the report as RFC 3339 writes it
  pub generated_at : Bytes
  pub asset : Bytes
  pub source : Bytes
  pub snapshot : Bytes
  pub snapshot_age : Bytes
  pub sandbox : Bytes
  pub rpo : Bytes
  pub rpo_result : Bytes
  pub rto : Bytes
  pub rto_result : Bytes
  pub assessment : Bytes
  pub confidence : Bytes
  pub validations : List Bytes
  pub evidence : List Bytes
  pub limitations : Bytes

-- What `strings.Map` does to one rune.
abbrev pub printable : ℕ → ℕ
printable r = if ltb r 32 || ltb 126 r then 32 else r

-- What the replacer writes for one character.
abbrev pub replacement : ℕ → Bytes
replacement c = if c == 92 || c == 40 || c == 41 then 92 ∷ c ∷ [] else c ∷ []

unfoldable pub pdf_escape : Bytes → Bytes
pdf_escape [] = []
pdf_escape (r ∷ rs) = replacement (printable r) ++ pdf_escape rs

-- `strings.Join(parts, ", ")`
abbrev pub joined : List Bytes → Bytes
joined [] = []
joined (x ∷ []) = x
joined (x ∷ y ∷ ys) = x ++ (44 ∷ 32 ∷ joined (y ∷ ys))

abbrev pub measured : Bytes → Bytes → Bytes
measured value result = value ++ (codes " (" ++ (result ++ codes ")"))

unfoldable report_lines : RecoveryReport → List Bytes
report_lines r =
    codes "Recovery Verification Report"
    ∷ (codes "Generated: " ++ r.generated_at)
    ∷ (codes "Protected asset: " ++ r.asset)
    ∷ (codes "Backup source: " ++ r.source)
    ∷ (codes "Snapshot: " ++ r.snapshot)
    ∷ (codes "Snapshot age: " ++ r.snapshot_age)
    ∷ (codes "Sandbox: " ++ r.sandbox)
    ∷ (codes "Measured RPO: " ++ measured r.rpo r.rpo_result)
    ∷ (codes "Measured RTO: " ++ measured r.rto r.rto_result)
    ∷ (codes "Assessment: " ++ r.assessment)
    ∷ (codes "Recovery confidence: " ++ r.confidence)
    ∷ (codes "Validations: " ++ joined r.validations)
    ∷ (codes "Evidence: " ++ joined r.evidence)
    ∷ (codes "Limitations: " ++ r.limitations)
    ∷ codes
        "This report represents the results of a controlled recovery drill under the tested conditions."
    ∷ codes "It does not guarantee recovery under every production disaster scenario."
    ∷ []

-- One round of the loop over the lines, with the size of the font.
unfoldable shown_line : ℕ → Bytes → Bytes
unfolding pdf_escape decimal
shown_line size line =
    codes "/F1 " ++ (decimal size ++ (codes " Tf (" ++ (pdf_escape line ++ codes ") Tj 0 -24 Td ")))

-- The lines below the title.
abbrev shown_lines : List Bytes → Bytes
shown_lines [] = []
shown_lines (l ∷ ls) = shown_line 10 l ++ shown_lines ls

abbrev shown_report : List Bytes → Bytes
shown_report [] = []
shown_report (l ∷ ls) = shown_line 16 l ++ shown_lines ls

unfoldable pub content : RecoveryReport → Bytes
unfolding report_lines shown_line
content r = codes "BT /F1 16 Tf 50 790 Td " ++ (shown_report (report_lines r) ++ codes "ET")

abbrev pub new_line : Bytes
new_line = 10 ∷ []

unfoldable stream_object : Bytes → Bytes
unfolding decimal
stream_object c =
    codes "<< /Length "
    ++ (decimal (length c)
        ++ (codes " >>"
            ++ (new_line
                ++ (codes "stream" ++ (new_line ++ (c ++ (new_line ++ codes "endstream")))))))

unfoldable pub pdf_objects : RecoveryReport → List Bytes
unfolding content stream_object
pdf_objects r =
    codes "<< /Type /Catalog /Pages 2 0 R >>"
    ∷ codes "<< /Type /Pages /Kids [3 0 R] /Count 1 >>"
    ∷ codes
        "<< /Type /Page /Parent 2 0 R /MediaBox [0 0 612 842] /Resources << /Font << /F1 4 0 R >> >> /Contents 5 0 R >>"
    ∷ codes "<< /Type /Font /Subtype /Type1 /BaseFont /Helvetica >>"
    ∷ stream_object (content r)
    ∷ []

-- `fmt.Fprintf(&out, "%d 0 obj\n%s\nendobj\n", i+1, object)`
unfoldable pub object_text : ℕ → Bytes → Bytes
unfolding decimal
object_text number object =
    decimal number
    ++ (codes " 0 obj" ++ (new_line ++ (object ++ (new_line ++ (codes "endobj" ++ new_line)))))

-- The loop over the objects: what is written, and the offsets.
unfoldable pub write_objects : ℕ → List Bytes → Bytes → List ℕ → Bytes × List ℕ
unfolding object_text
write_objects number [] out offsets = (out, offsets)
write_objects number (o ∷ os) out offsets =
    write_objects (suc number) os (out ++ object_text number o) (offsets ++ length out ∷ [])

-- `fmt.Fprintf(&out, "%010d 00000 n \n", offset)`
unfoldable pub entry_text : ℕ → Bytes
unfolding padded
entry_text offset = padded offset ++ (codes " 00000 n " ++ new_line)

abbrev pub entries_text : List ℕ → Bytes
entries_text [] = []
entries_text (n ∷ ns) = entry_text n ++ entries_text ns

unfoldable pub table_text : ℕ → List ℕ → Bytes
unfolding decimal entry_text
table_text size offsets =
    codes "xref"
    ++ (new_line
        ++ (codes "0 "
            ++ (decimal size
                ++ (new_line
                    ++ (codes "0000000000 65535 f " ++ (new_line ++ entries_text offsets))))))

unfoldable pub trailer_text : ℕ → Bytes
unfolding decimal
trailer_text size =
    codes "trailer << /Size " ++ (decimal size ++ (codes " /Root 1 0 R >>" ++ new_line))

unfoldable pub start_text : ℕ → Bytes
unfolding decimal
start_text xref = codes "startxref" ++ (new_line ++ (decimal xref ++ (new_line ++ codes "%%EOF")))

unfoldable pub finish : ℕ → Bytes × List ℕ → Bytes
unfolding table_text trailer_text start_text
finish size (out, offsets) =
    out ++ (table_text size offsets ++ (trailer_text size ++ start_text (length out)))

unfoldable pub generate_pdf : RecoveryReport → Bytes
unfolding pdf_objects write_objects finish
generate_pdf r =
    finish (length (pdf_objects r) + 1)
      (write_objects 1 (pdf_objects r) (codes "%PDF-1.4" ++ new_line) [])
