-- ===== src/Report/Literal.antt =====
-- A text of the report inside a literal string of PDF, which a parenthesis ends.
use mathlib.Core.List.{append_assoc}
use restoreguard.Common.{
  ℕ, ◌≡◌, refl, ap, ◌∙◌, Option, none, some, [], ◌∷◌, ◌++◌, map, ◌==◌, if◌then◌else◌, arith,
}
use restoreguard.Worker.World.{Bytes}
use restoreguard.Report.{printable, replacement, pdf_escape}

abbrev add_first : ℕ → Option (Bytes × Bytes) → Option (Bytes × Bytes)
add_first c none = none
add_first c (some (text, rest)) = some (c ∷ text, rest)

-- A reader of literal strings, after the opening parenthesis: a backslash is followed by the
-- character that it stands for, and a closing parenthesis ends the string. A text with an opening
-- parenthesis, which would have to be balanced, is refused.
mutual
  pub read_literal : Bytes → Option (Bytes × Bytes)
  read_literal [] = none
  read_literal (c ∷ cs) =
      let escaped = read_escaped cs in
      let plain = add_first c (read_literal cs) in
      if c == 92
      then escaped
      else if c == 41
      then some ([], cs)
      else if c == 40
      then none
      else plain

  read_escaped : Bytes → Option (Bytes × Bytes)
  read_escaped [] = none
  read_escaped (c ∷ cs) = add_first c (read_literal cs)

read-replacement :
    (c : ℕ) (rest : Bytes) → read_literal (replacement c ++ rest) ≡ add_first c (read_literal rest)
unfolding read_literal read_escaped
read-replacement c rest = ground arith

-- No text of a report can end the string that it stands in, or begin another: whatever follows the
-- closing parenthesis, a reader of the literal string gets the text with each character outside
-- printable ASCII replaced by a space, and then what follows.
pub read_literal-pdf_escape :
    (text rest : Bytes)
    → read_literal (pdf_escape text ++ 41 ∷ rest) ≡ some (map printable text, rest)
unfolding pdf_escape
read_literal-pdf_escape [] rest = close rest
  where
    close : (rest : Bytes) → read_literal (41 ∷ rest) ≡ some ([], rest)
    close rest = unfold read_literal in refl
read_literal-pdf_escape (r ∷ rs) rest =
    ap read_literal (append_assoc (replacement (printable r)) (pdf_escape rs) (41 ∷ rest))
    ∙ read-replacement (printable r) (pdf_escape rs ++ 41 ∷ rest)
    ∙ ap (add_first (printable r)) (read_literal-pdf_escape rs rest)
