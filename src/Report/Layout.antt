-- ===== src/Report/Layout.antt =====
-- Where the cross-reference table of the report points.
use mathlib.Core.List.{append_assoc, append-nil}
use restoreguard.Common.{
  ℕ, suc, ◌+◌, ◌≡◌, refl, sym, ap, ◌∙◌, subst, List, [], ◌∷◌, ◌++◌, length, length-append, ◌≤◌,
}
use restoreguard.Worker.World.{Bytes}
use restoreguard.Report.Text.{
  codes, decimal, padded, Numeral, decimal-Numeral, padded-Numeral, padded-long,
}
use restoreguard.Report.{
  RecoveryReport, new_line, pdf_objects, object_text, write_objects, entry_text, entries_text,
  table_text, trailer_text, start_text, finish, generate_pdf,
}

-- The text stands in the file at the offset.
abbrev StandsAt : Bytes → Bytes → ℕ → Type 0
StandsAt file text n =
    (before : Bytes) × (after : Bytes) × (file ≡ before ++ (text ++ after)) × (length before ≡ n)

-- `4 0 obj`, the object and `endobj`, on lines of their own.
abbrev IsObject : ℕ → Bytes → Bytes → Type 0
IsObject number object text =
    (digits : Bytes) × Numeral number digits
    × (text ≡ digits ++ (codes " 0 obj" ++ (10 ∷ (object ++ (10 ∷ codes "endobj" ++ 10 ∷ [])))))

-- Each object stands, under its number, at its offset.
abbrev HasObjects : ℕ → List Bytes → List ℕ → Bytes → Type 0
HasObjects number [] [] file = Unit {0}
HasObjects number [] (n ∷ ns) file = ⊥
HasObjects number (o ∷ os) [] file = ⊥
HasObjects number (o ∷ os) (n ∷ ns) file =
    ((text : Bytes) × IsObject number o text × StandsAt file text n)
    × HasObjects (suc number) os ns file

-- One entry of the table for each offset: at least ten digits, which are the offset, and the words
-- of an object in use.
abbrev AreEntries : List ℕ → Bytes → Type 0
AreEntries [] text = text ≡ []
AreEntries (n ∷ ns) text =
    (digits : Bytes) × (rest : Bytes) × (10 ≤ length digits)
    × Numeral n digits
    × (text ≡ digits ++ (codes " 00000 n " ++ (10 ∷ rest)))
    × AreEntries ns rest

-- The table: its size, the free entry that comes first, and the others.
abbrev IsTable : ℕ → List ℕ → Bytes → Type 0
IsTable size offsets text =
    (digits : Bytes) × (entries : Bytes) × Numeral size digits
    × (text
        ≡ codes "xref"
          ++ (10 ∷ codes "0 " ++ (digits ++ (10 ∷ codes "0000000000 65535 f " ++ (10 ∷ entries)))))
    × AreEntries offsets entries

-- The end of a file, which names the place of the table.
abbrev IsEnd : ℕ → Bytes → Type 0
IsEnd start text =
    (digits : Bytes) × Numeral start digits
    × (text ≡ codes "startxref" ++ (10 ∷ digits ++ (10 ∷ codes "%%EOF")))

object_text-IsObject : (number : ℕ) (o : Bytes) → IsObject number o (object_text number o)
unfolding object_text
object_text-IsObject number o = (decimal number, decimal-Numeral number, refl)

entries_text-AreEntries : (ns : List ℕ) → AreEntries ns (entries_text ns)
unfolding entry_text
entries_text-AreEntries [] = refl
entries_text-AreEntries (n ∷ ns) = (
  padded n,
  entries_text ns,
  padded-long n,
  padded-Numeral n,
  append_assoc (padded n) (codes " 00000 n " ++ new_line) (entries_text ns),
  entries_text-AreEntries ns,
)

table_text-IsTable : (size : ℕ) (ns : List ℕ) → IsTable size ns (table_text size ns)
unfolding table_text
table_text-IsTable size ns =
    (decimal size, entries_text ns, decimal-Numeral size, refl, entries_text-AreEntries ns)

start_text-IsEnd : (start : ℕ) → IsEnd start (start_text start)
unfolding start_text
start_text-IsEnd start = (decimal start, decimal-Numeral start, refl)

objects_text : ℕ → List Bytes → Bytes
objects_text number [] = []
objects_text number (o ∷ os) = object_text number o ++ objects_text (suc number) os

places : ℕ → List Bytes → ℕ → List ℕ
places number [] at = []
places number (o ∷ os) at = at ∷ places (suc number) os (at + length (object_text number o))

write_objects_lem :
    (number : ℕ) (os : List Bytes) (out : Bytes) (offsets : List ℕ)
    → write_objects number os out offsets
      ≡ (out ++ objects_text number os, offsets ++ places number os (length out))
unfolding write_objects objects_text places
write_objects_lem number [] out offsets = λ i. (sym (append-nil out) i, sym (append-nil offsets) i)
write_objects_lem number (o ∷ os) out offsets =
    write_objects_lem (suc number) os (out ++ object_text number o) (offsets ++ length out ∷ [])
    ∙ (λ i. (
      append_assoc out (object_text number o) (objects_text (suc number) os) i,
      append_assoc offsets (length out ∷ [])
          (places (suc number) os (length-append out (object_text number o) i)) i,
    ))

places-HasObjects :
    (number : ℕ) (os : List Bytes) (before after : Bytes)
    → HasObjects number os
        (places number os (length before))
        (before ++ (objects_text number os ++ after))
unfolding objects_text places
places-HasObjects number [] before after = tt
places-HasObjects number (o ∷ os) before after =
    let rest = objects_text (suc number) os in
    let text = object_text number o in
    let next = places-HasObjects (suc number) os (before ++ text) after in
    let here : before ++ ((text ++ rest) ++ after) ≡ before ++ (text ++ (rest ++ after)) =
      ap (λ l. before ++ l) (append_assoc text rest after) in
    let there : (before ++ text) ++ (rest ++ after) ≡ before ++ ((text ++ rest) ++ after) =
      append_assoc before text (rest ++ after) ∙ sym here in
    (
      (text, object_text-IsObject number o, (before, rest ++ after, here, refl)),
      subst
          (λ file.
            HasObjects (suc number) os (places (suc number) os (length before + length text)) file)
          there
          (subst
            (λ n.
              HasObjects (suc number) os (places (suc number) os n)
                ((before ++ text) ++ (rest ++ after)))
            (length-append before text) next),
    )

-- A file with a table of its objects.
pub record IsIndexed (objects : List Bytes) (file : Bytes) : Type 0 where
  pub offsets : List ℕ
  pub start : ℕ
  pub found : HasObjects 1 objects offsets file
  pub table : (text : Bytes) × IsTable (length objects + 1) offsets text × StandsAt file text start
  pub ends : (text : Bytes) × IsEnd start text × (before : Bytes) × (file ≡ before ++ text)

module _ (header : Bytes) (objects : List Bytes) where
  written-IsIndexed : IsIndexed objects (
      finish
        (length objects + 1)
        (header ++ objects_text 1 objects, places 1 objects (length header)))
  unfolding finish
  written-IsIndexed =
      let body = header ++ objects_text 1 objects in
      let offsets = places 1 objects (length header) in
      let size = length objects + 1 in
      let table = table_text size offsets in
      let trailer = trailer_text size in
      let start = start_text (length body) in
      let tail = table ++ (trailer ++ start) in
      record {
        offsets = offsets;
        start = length body;
        found =
            subst (HasObjects 1 objects offsets)
              (sym (append_assoc header (objects_text 1 objects) tail))
              (places-HasObjects 1 objects header tail);
        table = (table, table_text-IsTable size offsets, (body, trailer ++ start, refl, refl));
        ends = (
          start,
          start_text-IsEnd (length body),
          body ++ (table ++ trailer),
          ap (λ l. body ++ l) (sym (append_assoc table trailer start))
              ∙ sym (append_assoc body (table ++ trailer) start),
        );
      }

-- Whatever the report says: in the file that GeneratePDF gives, each of the objects stands between
-- its number with `0 obj` and `endobj` at the offset that is written, in ten digits or more, in its
-- entry of a cross-reference table (`xref`, the size, the free entry, then one entry for each object),
-- and that table stands at the offset that is written between `startxref` and `%%EOF` at the end of
-- the file.
pub generate_pdf-IsIndexed : (r : RecoveryReport) → IsIndexed (pdf_objects r) (generate_pdf r)
unfolding generate_pdf
generate_pdf-IsIndexed r =
    let header = codes "%PDF-1.4" ++ new_line in
    subst (λ w. IsIndexed (pdf_objects r) (finish (length (pdf_objects r) + 1) w))
      (sym (write_objects_lem 1 (pdf_objects r) header []))
      (written-IsIndexed header (pdf_objects r))
