-- ===== src/Docker/Names.antt =====
-- The names of the Docker resources of a sandbox (backend/internal/drill/docker.go).
use Prim.Native.String.{String, [], ◌∷◌, ◌++◌}
use Prim.Native.Char.{Char, code}
use restoreguard.Common.{◌≡◌, Bool, true, false, ◌&&◌, ◌||◌, ◌==◌}
use restoreguard.Worker.Backup.{is_alphanumeric}
use text.Mathlib.Text.{starts_with}
use text.Mathlib.TextPositions.{starts_with-append}

-- `[a-zA-Z0-9_-]`
abbrev pub is_safe_char : Char → Bool
is_safe_char c = is_alphanumeric (code c) || code c == b'_' || code c == b'-'

unfoldable pub all_safe : String → Bool
all_safe [] = true
all_safe (c ∷ cs) = is_safe_char c && all_safe cs

-- `^[a-zA-Z0-9_-]+$`
unfoldable pub safe_identifier : String → Bool
unfolding all_safe
safe_identifier [] = false
safe_identifier (c ∷ cs) = is_safe_char c && all_safe cs

abbrev pub is_empty : String → Bool
is_empty [] = true
is_empty (c ∷ cs) = false

-- `strings.HasPrefix(value, "restoreguard-")`
abbrev pub is_managed : String → Bool
is_managed name = starts_with name "restoreguard-"

-- `base` with the ending of one resource; `suffix` is the random part.
abbrev pub resource_name : String → String → String → String
resource_name drill_id suffix ending = "restoreguard-" ++ (drill_id ++ ("-" ++ (suffix ++ ending)))

pub is_managed-resource_name :
    (drill_id suffix ending : String) → is_managed (resource_name drill_id suffix ending) ≡ true
is_managed-resource_name drill_id suffix ending =
    starts_with-append "restoreguard-" (drill_id ++ ("-" ++ (suffix ++ ending)))
