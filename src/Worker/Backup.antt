-- ===== src/Worker/Backup.antt =====
-- The checks on the staged backup: the byte limit, `equalHash` and the integrity test, and
-- `compactID` (backend/internal/drill/worker.go).
pub mod Integrity
use restoreguard.Common.{
  ℕ, suc, ◌+◌, ◌^◌, Bool, true, false, ◌&&◌, ◌||◌, not, Option, none, some, [], ◌∷◌, ltb, leb, ◌==◌,
  length, take, if◌then◌else◌,
}
use restoreguard.Common.Int.{ℤ, pos}
use restoreguard.Worker.World.{Bytes}

abbrev is_lower : ℕ → Bool
is_lower c = leb b'a' c && leb c b'z'

abbrev is_upper : ℕ → Bool
is_upper c = leb b'A' c && leb c b'Z'

abbrev is_digit : ℕ → Bool
is_digit c = leb b'0' c && leb c b'9'

abbrev pub is_alphanumeric : ℕ → Bool
is_alphanumeric c = is_lower c || is_upper c || is_digit c

-- The loop of `compactID`.
unfoldable pub keep_alphanumeric : Bytes → Bytes
keep_alphanumeric [] = []
keep_alphanumeric (c ∷ cs) =
    let rest = keep_alphanumeric cs in if is_alphanumeric c then c ∷ rest else rest

-- `result[:18]` where the result is longer, which `take` leaves alone where it is not.
unfoldable pub compact_id : Bytes → Bytes
unfolding keep_alphanumeric
compact_id id =
    let result = keep_alphanumeric id in if ltb 18 (length result) then take 18 result else result

abbrev pub fold_case : ℕ → ℕ
fold_case c = if is_upper c then c + 32 else c

-- Folding beyond ASCII is left out: one side of each comparison is a text of hexadecimal digits.
unfoldable pub equal_fold : Bytes → Bytes → Bool
equal_fold [] [] = true
equal_fold [] (_ ∷ _) = false
equal_fold (_ ∷ _) [] = false
equal_fold (x ∷ xs) (y ∷ ys) = fold_case x == fold_case y && equal_fold xs ys

unfoldable pub equal_hash : Bytes → Bytes → Bool
unfolding equal_fold
equal_hash a b = length a == length b && equal_fold a b

-- MaxArtifactBytes, or one GiB where it is not positive.
unfoldable pub artifact_limit : ℤ → ℕ
artifact_limit (pos (suc n)) = suc n
artifact_limit _ = 2 ^ 30

-- What `io.Copy` reads through `io.LimitReader(reader, limit+1)`: the sum is an int64, and a
-- negative limit reads nothing.
unfoldable pub read_limited : ℕ → Bytes → Bytes
read_limited limit content = if ltb (limit + 1) (2 ^ 63) then take (limit + 1) content else []

abbrev pub checksum_differs : Option Bytes → Bytes → Bool
checksum_differs none actual = false
checksum_differs (some []) actual = false
checksum_differs (some (c ∷ cs)) actual = not (equal_hash (c ∷ cs) actual)

-- The three comparisons of the integrity test.
unfoldable pub is_rejected : ℕ → ℕ → ℕ → Option Bytes → Bytes → Bool
is_rejected limit written reported_size checksum actual =
    ltb limit written || not (reported_size == written) || checksum_differs checksum actual
