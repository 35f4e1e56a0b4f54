-- ===== src/Storage/Keys.antt =====
-- The keys of the local object storage and their paths (backend/internal/storage/local.go:
-- safeKey, path; Join and Rel of Go's path/filepath on clean absolute paths).
-- A path is the list of its segments.
pub mod Inside
use restoreguard.Common.{
  ℕ, Bool, true, false, ◌&&◌, ◌||◌, not, Option, none, some, List, [], ◌∷◌, ◌++◌, leb, ◌==◌, length,
  all, if◌then◌else◌,
}
use restoreguard.Worker.World.{Bytes}
use restoreguard.Worker.Backup.{is_alphanumeric}

abbrev pub Segments : Type 0
Segments = List Bytes

-- `[a-zA-Z0-9/_.-]`
abbrev is_key_byte : ℕ → Bool
is_key_byte c = is_alphanumeric c || c == b'/' || c == b'_' || c == b'.' || c == b'-'

-- `^[a-zA-Z0-9][a-zA-Z0-9/_.-]{0,499}$`
unfoldable pub safe_key : Bytes → Bool
safe_key [] = false
safe_key (c ∷ cs) = is_alphanumeric c && all is_key_byte cs && leb (length cs) 499

abbrev pub starts_dot : Bytes → Bool
starts_dot [] = false
starts_dot (c ∷ cs) = c == b'.'

-- `strings.Contains(key, "..")`
unfoldable pub has_dots : Bytes → Bool
has_dots [] = false
has_dots (c ∷ cs) = (c == b'.' && starts_dot cs) || has_dots cs

unfoldable pub has_backslash : Bytes → Bool
has_backslash [] = false
has_backslash (c ∷ cs) = c == 92 || has_backslash cs

abbrev pub attach : ℕ → Segments → Segments
attach c [] = (c ∷ []) ∷ []
attach c (s ∷ ss) = (c ∷ s) ∷ ss

unfoldable pub split : Bytes → Segments
split [] = [] ∷ []
split (c ∷ cs) = let rest = split cs in if c == b'/' then [] ∷ rest else attach c rest

-- The segments "" and ".", which Clean drops.
abbrev pub is_skipped : Bytes → Bool
is_skipped [] = true
is_skipped (c ∷ []) = c == b'.'
is_skipped (c ∷ d ∷ cs) = false

abbrev pub is_dotdot : Bytes → Bool
is_dotdot (c ∷ d ∷ []) = c == b'.' && d == b'.'
is_dotdot _ = false

abbrev dotdot : Bytes
dotdot = b'.' ∷ b'.' ∷ []

abbrev pub drop_last : Segments → Segments
drop_last [] = []
drop_last (s ∷ []) = []
drop_last (s ∷ t ∷ ss) = s ∷ drop_last (t ∷ ss)

-- One segment of Clean, after the path so far.
abbrev visit : Bytes → Segments → Segments
visit s out = if is_skipped s then out else if is_dotdot s then drop_last out else out ++ s ∷ []

unfoldable pub walk : Segments → Segments → Segments
walk out [] = out
walk out (s ∷ ss) = walk (visit s out) ss

-- `filepath.Join(l.root, filepath.FromSlash(key))`
unfoldable pub join : Segments → Bytes → Segments
unfolding walk split
join root key = walk root (split key)

unfoldable pub same_bytes : Bytes → Bytes → Bool
same_bytes [] [] = true
same_bytes [] (y ∷ ys) = false
same_bytes (x ∷ xs) [] = false
same_bytes (x ∷ xs) (y ∷ ys) = x == y && same_bytes xs ys

abbrev ups : Segments → Segments
ups [] = []
ups (s ∷ ss) = dotdot ∷ ups ss

-- `filepath.Rel`; the result `.` is the empty path.
unfoldable pub rel : Segments → Segments → Segments
unfolding same_bytes
rel [] target = target
rel (b ∷ bs) [] = dotdot ∷ ups bs
rel (b ∷ bs) (t ∷ ts) =
    let rest = rel bs ts in if same_bytes b t then rest else dotdot ∷ (ups bs ++ t ∷ ts)

-- `rel == ".." || strings.HasPrefix(rel, "../")`
abbrev pub escapes : Segments → Bool
escapes [] = false
escapes (s ∷ ss) = is_dotdot s

unfoldable pub path : Segments → Bytes → Option Segments
unfolding safe_key has_dots has_backslash join rel
path root key =
    if not (safe_key key) || has_dots key || has_backslash key
    then none
    else if escapes (rel root (join root key))
    then none
    else some (join root key)
