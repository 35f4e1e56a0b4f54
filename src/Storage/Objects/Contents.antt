-- ===== src/Storage/Objects/Contents.antt =====
-- The object storage as a map from paths to contents, and what it may answer.
use restoreguard.Common.{
  ◌≤◌, ◌≡◌, ◌⊎◌, Bool, true, not, ◌&&◌, ◌||◌, Option, none, some, List, [], ◌∷◌, length,
}
use restoreguard.Common.Int.{ℤ, pos}
use restoreguard.Worker.World.{Bytes}
use restoreguard.Storage.Keys.{Segments, path}
use restoreguard.Storage.Local.{Call, Local, assign, info_of, is_above, same_path}
use restoreguard.Storage.Objects.{
  Request, putting, getting, deleting, checking, Answer, refused, missing, deleted, healthy, stored,
  found, unreadable, Attempt,
}

-- The abstract storage: what each path holds.
abbrev pub Contents : Type 0
Contents = Segments → Option Bytes

-- The paths where a directory may be.
abbrev pub Places : Type 0
Places = Segments → Bool

abbrev pub place_at : Option Segments → Places → Places
place_at none s q = s q
place_at (some p) s q = is_above q p || s q

abbrev pub unplace_at : Option Segments → Places → Places
unplace_at none s q = s q
unplace_at (some p) s q = not (same_path p q) && s q

abbrev pub assign_at : Option Segments → Option Bytes → Contents → Contents
assign_at none content o = o
assign_at (some p) content o = assign p content o

-- A call of the operating system failed.
abbrev pub Fails : (Call → Bool) → Type 0
Fails fails = (c : Call) × (fails c ≡ true)

-- A content of the stated size within the limit.
abbrev pub Fits : Local → ℤ → Bytes → Type 0
Fits l size content = (size ≡ pos (length content)) × (length content ≤ l.max_bytes)

module _ (l : Local) where
  -- The abstract storage after an answer.
  abbrev pub remember : Request → Answer → Contents → Contents
  remember (putting key content size content_type) (stored info) o =
      assign_at (path l.root key) (some content) o
  remember (deleting key) deleted o = assign_at (path l.root key) none o
  remember _ _ o = o

  -- Where a directory may be after an answer: a Put, accepted or not, may make those above its path.
  abbrev pub note : Request → Answer → Places → Places
  note (putting key content size content_type) a s = place_at (path l.root key) s
  note (deleting key) deleted s = unplace_at (path l.root key) s
  note _ _ s = s

  -- The answers that the abstract storage may give.
  abbrev pub Allowed : Contents → Places → (Call → Bool) → Request → Answer → Type 0
  Allowed o s fails (putting key content size content_type) (stored info) =
      (p : Segments) × (path l.root key ≡ some p)
      × Fits l size content
      × (info ≡ info_of l key content content_type)
  Allowed o s fails (putting key content size content_type) refused =
      (path l.root key ≡ none) ⊎ ((Fits l size content → ⊥) ⊎ Fails fails)
  Allowed o s fails (getting key) (found content info) =
      (p : Segments) × (path l.root key ≡ some p)
      × (o p ≡ some content)
      × (info.key ≡ key)
      × (info.size ≡ length content)
  Allowed o s fails (getting key) (unreadable info) =
      (p : Segments) × (path l.root key ≡ some p) × (o p ≡ none) × (s p ≡ true) × (info.key ≡ key)
  Allowed o s fails (getting key) missing =
      (p : Segments) × (path l.root key ≡ some p) × (o p ≡ none)
  Allowed o s fails (getting key) refused = (path l.root key ≡ none) ⊎ Fails fails
  Allowed o s fails (deleting key) deleted = (p : Segments) × (path l.root key ≡ some p)
  Allowed o s fails (deleting key) refused = (path l.root key ≡ none) ⊎ Fails fails
  Allowed o s fails checking healthy = Unit {0}
  Allowed o s fails checking refused = Fails fails
  Allowed o s fails _ _ = ⊥

  -- Each answer is allowed by what the abstract storage holds then.
  abbrev pub IsHistory : Contents → Places → List (Attempt × Answer) → Type 0
  IsHistory o s [] = Unit {0}
  IsHistory o s (((system, r), a) ∷ trace) =
      Allowed o s system.fails r a × IsHistory (remember r a o) (note r a s) trace

  abbrev pub remember_all : List (Attempt × Answer) → Contents → Contents
  remember_all [] o = o
  remember_all (((system, r), a) ∷ trace) o = remember_all trace (remember r a o)
