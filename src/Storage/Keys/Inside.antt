-- ===== src/Storage/Keys/Inside.antt =====
-- The paths of the accepted keys.
use restoreguard.Common.{
  ◌≡◌, refl, sym, ap, subst, ◌∙◌, ◌≢◌, ◌↔◌, Bool, true, false, ◌&&◌, some, [], ◌∷◌, ◌++◌, ◌==◌,
  arith, All, if◌then◌else◌,
}
use restoreguard.Worker.World.{Bytes}
use restoreguard.Worker.Backup.{is_alphanumeric}
use restoreguard.Storage.Keys.{
  Segments, safe_key, starts_dot, has_dots, has_backslash, attach, split, is_skipped, is_dotdot,
  drop_last, walk, join, same_bytes, rel, escapes, path,
}

pub same_bytes_refl : (s : Bytes) → same_bytes s s ≡ true
unfolding same_bytes
same_bytes_refl [] = refl
same_bytes_refl (x ∷ xs) = ground (arith, same_bytes_refl xs)

pub same_bytes-eq : (s t : Bytes) → same_bytes s t ≡ true → s ≡ t
unfolding same_bytes
same_bytes-eq [] [] h = refl
same_bytes-eq [] (y ∷ ys) h = cc
same_bytes-eq (x ∷ xs) [] h = cc
same_bytes-eq (x ∷ xs) (y ∷ ys) h =
    let rest : same_bytes xs ys ≡ true → xs ≡ ys = same_bytes-eq xs ys in ground (arith, rest)

-- From the root to a path below it Rel gives the rest of the path.
pub rel-append : (root rest : Segments) → rel root (root ++ rest) ≡ rest
unfolding rel
rel-append [] rest = refl
rel-append (b ∷ bs) rest = ground (arith, same_bytes_refl b, rel-append bs rest)

-- The proper segments of a key: those that name a file or a directory.
abbrev pub names : Segments → Segments
names [] = []
names (s ∷ ss) = let rest = names ss in if is_skipped s then rest else s ∷ rest

abbrev NoDots : Segments → Type 0
NoDots ss = All (λ s. has_dots s ≡ false) ss

pub has_dots-is_dotdot : (s : Bytes) → has_dots s ≡ false → is_dotdot s ≡ false
unfolding has_dots
has_dots-is_dotdot [] h = refl
has_dots-is_dotdot (c ∷ []) h = refl
has_dots-is_dotdot (c ∷ d ∷ []) h = ground arith
has_dots-is_dotdot (c ∷ d ∷ e ∷ s) h = refl

abbrev head_dot : Segments → Bool
head_dot [] = false
head_dot (s ∷ ss) = starts_dot s

split-starts_dot : (cs : Bytes) → head_dot (split cs) ≡ true → starts_dot cs ≡ true
unfolding split
split-starts_dot [] h = ground arith
split-starts_dot (c ∷ cs) h = step (split cs) h
  where
    step :
        (ss : Segments)
        → head_dot (if c == b'/' then [] ∷ ss else attach c ss) ≡ true
        → (c == b'.') ≡ true
    step [] h = ground arith
    step (s ∷ ss) h = ground arith

split-NoDots : (cs : Bytes) → has_dots cs ≡ false → NoDots (split cs)
unfolding split has_dots
split-NoDots [] h = (refl, tt)
split-NoDots (c ∷ cs) h =
    step (split cs) (split-starts_dot cs) (ground arith) (split-NoDots cs (ground arith))
  where
    step :
        (ss : Segments)
        → (head_dot ss ≡ true → starts_dot cs ≡ true)
        → (c == b'.' && starts_dot cs) ≡ false
        → NoDots ss
        → NoDots (if c == b'/' then [] ∷ ss else attach c ss)
    step [] e k hs = ground arith
    step (s ∷ ss) e k hs = ground arith

append_assoc : (xs ys zs : Segments) → (xs ++ ys) ++ zs ≡ xs ++ (ys ++ zs)
append_assoc [] ys zs = refl
append_assoc (x ∷ xs) ys zs = ap (λ l. x ∷ l) (append_assoc xs ys zs)

append_nil : (xs : Segments) → xs ++ [] ≡ xs
append_nil [] = refl
append_nil (x ∷ xs) = ap (λ l. x ∷ l) (append_nil xs)

walk-names : (out ss : Segments) → NoDots ss → walk out ss ≡ out ++ names ss
unfolding walk
walk-names out [] h = sym (append_nil out)
walk-names out (s ∷ ss) (h, hs) =
    step (λ o. walk-names o ss hs) (is_skipped s) (is_dotdot s) (has_dots-is_dotdot s h)
  where
    step :
        ((o : Segments) → walk o ss ≡ o ++ names ss)
        → (skipped up : Bool) → up ≡ false
        → walk (if skipped then out else if up then drop_last out else out ++ s ∷ []) ss
          ≡ out ++ (if skipped then names ss else s ∷ names ss)
    step next true up e = next out
    step next false true e = cc e
    step next false false e = next (out ++ s ∷ []) ∙ append_assoc out (s ∷ []) (names ss)

-- The conditions on a key.
abbrev pub IsSafeKey : Bytes → Type 0
IsSafeKey key = (safe_key key ≡ true) × (has_dots key ≡ false) × (has_backslash key ≡ false)

names-escapes : (ss : Segments) → NoDots ss → escapes (names ss) ≡ false
names-escapes [] h = refl
names-escapes (s ∷ ss) (h, hs) = ground (arith, has_dots-is_dotdot s h, names-escapes ss hs)

join-names :
    (root : Segments) (key : Bytes)
    → has_dots key ≡ false
    → join root key ≡ root ++ names (split key)
unfolding join
join-names root key h = walk-names root (split key) (split-NoDots key h)

-- The second guard never fires after the first: an accepted key does not escape.
rel-join :
    (root : Segments) (key : Bytes)
    → has_dots key ≡ false
    → escapes (rel root (join root key)) ≡ false
rel-join root key h =
    subst (λ p. escapes (rel root p) ≡ false) (sym (join-names root key h))
      (subst (λ p. escapes p ≡ false) (sym (rel-append root (names (split key))))
        (names-escapes (split key) (split-NoDots key h)))

-- A key has a path exactly when it is safe, and the path is then the root followed by the proper
-- segments of the key.
pub path_iff :
    (root : Segments) (key : Bytes) (p : Segments)
    → (path root key ≡ some p) ↔ (IsSafeKey key × (p ≡ root ++ names (split key)))
unfolding path
path_iff root key p = ground (arith, rel-join root key, join-names root key)

-- A proper name of a file or a directory: not empty, not `.` and not `..`.
abbrev IsName : Bytes → Type 0
IsName s = (is_skipped s ≡ false) × (is_dotdot s ≡ false)

names-IsName : (ss : Segments) → NoDots ss → All IsName (names ss)
names-IsName [] h = tt
names-IsName (s ∷ ss) (h, hs) = ground (arith, has_dots-is_dotdot s h, names-IsName ss hs)

names-safe_key : (key : Bytes) → safe_key key ≡ true → names (split key) ≢ []
unfolding safe_key split
names-safe_key [] h = ground arith
names-safe_key (c ∷ cs) h = step (split cs) (ground arith)
  where
    step :
        (ss : Segments)
        → is_alphanumeric c ≡ true
        → names (if c == b'/' then [] ∷ ss else attach c ss) ≢ []
    step [] h = ground arith
    step ([] ∷ ss) h = ground arith
    step ((d ∷ s) ∷ ss) h = ground arith

-- The path of an object goes below the root, by one proper name or more: no key reaches the root
-- itself or anything outside it.
path-All :
    (root : Segments) (key : Bytes) (p : Segments)
    → path root key ≡ some p
    → (rest : Segments) × (p ≡ root ++ rest) × (rest ≢ []) × All IsName rest
path-All root key p h =
    let ((safe, plain, _), at) = (path_iff root key p).0 h in
    (
      names (split key),
      at,
      names-safe_key key safe,
      names-IsName (split key) (split-NoDots key plain),
    )
