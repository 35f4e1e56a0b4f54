-- ===== src/Provider/Snapshots.antt =====
-- What the provider lists, and what it finds of it.
use mathlib.Core.List.{append-nil}
use restoreguard.Common.{
  ℕ, suc, ◌+◌, ◌^◌, ◌≤◌, ◌<◌, ◌≡◌, refl, sym, ap, ◌∙◌, ◌≢◌, ◌↔◌, true, false, not, Option, none,
  some, List, [], ◌∷◌, ◌++◌, ltb, length, if◌then◌else◌, if_cases, if_ne, arith, All, All-append,
  subst,
}
use restoreguard.Worker.World.{Bytes}
use restoreguard.Worker.Backup.Integrity.{read-whole}
use restoreguard.Storage.Keys.{
  Segments, has_dots, has_backslash, split, is_skipped, walk, join, rel,
}
use restoreguard.Storage.Keys.Inside.{rel-append, has_dots-is_dotdot}
use restoreguard.Provider.{
  FileInfo, DirEntry, DiscoveredSnapshot, Provider, Files, is_empty, has_slash, starts_up, climbs,
  resolve, is_dump_name, snapshot_of, listed, seen, collect, collect_all, discover, get_snapshot,
}

-- An identifier that is not empty and has no two dots in a row, no slash and no backslash.
pub record IsPlain (id : Bytes) : Type 0 where
  pub present : id ≢ []
  pub dotless : has_dots id ≡ false
  pub slashless : has_slash id ≡ false
  pub backslashless : has_backslash id ≡ false

-- The path of an identifier; the identifier `.` is the root itself.
abbrev pub path_below : Segments → Bytes → Segments
path_below root id = if is_skipped id then root else root ++ id ∷ []

split-slashless : (id : Bytes) → has_slash id ≡ false → split id ≡ id ∷ []
unfolding split has_slash
split-slashless [] h = refl
split-slashless (c ∷ cs) h =
    let rest : split cs ≡ cs ∷ [] = split-slashless cs (ground (arith, h)) in
    rw rest (ground (arith, h))

join-path_below :
    (root : Segments) (id : Bytes)
    → has_slash id ≡ false
    → has_dots id ≡ false
    → join root id ≡ path_below root id
unfolding join walk
join-path_below root id h k = rw (split-slashless id h, has_dots-is_dotdot id k) refl

starts_up-has_dots : (s : Bytes) → starts_up s ≡ true → has_dots s ≡ true
unfolding has_dots
starts_up-has_dots [] h = cc h
starts_up-has_dots (c ∷ cs) h = ground (arith, h)

climbs-rel :
    (root : Segments) (id : Bytes)
    → has_dots id ≡ false
    → climbs (rel root (path_below root id)) ≡ false
climbs-rel root id h =
    if_cases (λ p. climbs (rel root p) ≡ false) (is_skipped id)
      (λ _. ap climbs (ap (rel root) (sym (append-nil root)) ∙ rel-append root []))
      (λ _. ap climbs (rel-append root (id ∷ [])) ∙ ground (arith, h, starts_up-has_dots id))

is_empty-false : (id : Bytes) → id ≢ [] → is_empty id ≡ false
is_empty-false [] n = absurd (n refl)
is_empty-false (c ∷ cs) n = refl

resolve-plain :
    (root : Segments) (id : Bytes) → IsPlain id → resolve root id ≡ some (path_below root id)
unfolding resolve
resolve-plain root id h =
    rw
      (
        is_empty-false id h.present,
        h.dotless,
        h.slashless,
        h.backslashless,
        join-path_below root id h.slashless h.dotless,
        climbs-rel root id h.dotless,
      )
      refl

resolve-IsPlain :
    (root : Segments) (id : Bytes) (p : Segments) → resolve root id ≡ some p → IsPlain id
unfolding resolve
resolve-IsPlain root id p h = record {
  present = λ e. of_empty id e h;
  dotless = ground (arith, h);
  slashless = ground (arith, h);
  backslashless = ground (arith, h);
}
  where
    of_empty : (id : Bytes) → id ≡ [] → resolve root id ≡ some p → ⊥
    of_empty [] e k = cc k
    of_empty (c ∷ cs) e k = cc e

-- An identifier resolves exactly when it is not empty and has no two dots in a row, no slash and no
-- backslash; its path is the root followed by it, or the root itself for the identifier of one dot.
-- The second guard, on the relative path, refuses nothing more.
resolve_iff :
    (root : Segments) (id : Bytes) (p : Segments)
    → (resolve root id ≡ some p) ↔ (IsPlain id × (p ≡ path_below root id))
resolve_iff root id p = (
  λ h. let plain = resolve-IsPlain root id p h in (plain, cc (h, resolve-plain root id plain)),
  λ (plain, e). resolve-plain root id plain ∙ ap some (sym e),
)

module _ (p : Provider) (f : Files) where
  abbrev path_of : Bytes → Segments
  path_of name = p.root ++ name ∷ []

  -- An entry for a regular file, which is no symbolic link and can be read: it has a plain name other
  -- than one dot, Stat tells the same of it as the entry, and it opens with as many bytes.
  pub record IsReadable (e : DirEntry) : Type 0 where
    pub plain : IsPlain e.name
    pub proper : is_skipped e.name ≡ false
    pub same : f.stat (path_of e.name) ≡ e.info
    pub content : Bytes
    pub readable : f.open_file (path_of e.name) ≡ some content
    pub size : (info : FileInfo) → e.info ≡ some info → length content ≡ info.size

  -- A directory, or a regular file that can be read.
  abbrev pub IsRegular : DirEntry → Type 0
  IsRegular e = e.is_dir ≡ false → IsReadable e

  -- GetSnapshot gives the snapshot with the checksum of the whole file.
  abbrev pub IsFound : DiscoveredSnapshot → Type 0
  IsFound d =
      (content : Bytes) × (f.open_file (path_of d.external_id) ≡ some content)
      × (length content ≡ d.size_bytes)
      × (get_snapshot p f d.external_id ≡ some (record d { checksum = f.sha256_hex content }))

  module _ (small : p.max_bytes + 1 < 2 ^ 63) (copied : f.copy_fails ≡ false)
      (running : f.done_after ≡ false) where
    resolve-proper : (e : DirEntry) → IsReadable e → resolve p.root e.name ≡ some (path_of e.name)
    resolve-proper e r =
        resolve-plain p.root e.name r.plain
        ∙ ap some (
            if_cases (λ (q : Segments). q ≡ path_of e.name) (is_skipped e.name)
              (λ h. cc (h, r.proper)) (λ _. refl))

    get-listed :
        (e : DirEntry) (info : FileInfo)
        → IsReadable e
        → e.info ≡ some info
        → info.size ≤ p.max_bytes
        → IsFound (snapshot_of e.name info)
    unfolding get_snapshot
    get-listed e info r i h =
        let size = r.size info i in
        (
          r.content,
          r.readable,
          size,
          rw
              (
                resolve-proper e r,
                r.same,
                i,
                r.readable,
                copied,
                running,
                read-whole p.max_bytes r.content small (omega (arith, h, size)),
              )
              refl,
        )

    listed-IsFound :
        (e : DirEntry) (info : Option FileInfo)
        → IsReadable e
        → e.info ≡ info
        → All IsFound (listed p.max_bytes e.name info)
    listed-IsFound e none r i = tt
    listed-IsFound e (some info) r i =
        if_cases (All IsFound) (ltb p.max_bytes info.size) (λ _. tt)
          (λ h.
            if_cases (All IsFound) (not (is_dump_name e.name)) (λ _. tt)
              (λ _. (get-listed e info r i (ground (arith, h)), tt)))

    seen-IsFound : (e : DirEntry) → IsRegular e → All IsFound (seen p.max_bytes e)
    seen-IsFound e r =
        if_cases (All IsFound) e.is_dir (λ _. tt) (λ n. listed-IsFound e e.info (r n) refl)

    collect-IsFound :
        (i : ℕ) (es : List DirEntry) (result ds : List DiscoveredSnapshot)
        → All IsRegular es
        → All IsFound result
        → collect f p.max_bytes i es result ≡ some ds
        → All IsFound ds
    unfolding collect
    collect-IsFound i [] result ds r h e = subst (All IsFound) (some-injective e) h
      where
        some-injective : {x y : List DiscoveredSnapshot} → some x ≡ some y → x ≡ y
        some-injective k = cc k
    collect-IsFound i (e ∷ es) result ds (r, rs) h k =
        let (_, rest) = if_ne (f.done i) (λ n. cc n) k in
        collect-IsFound (suc i) es (result ++ seen p.max_bytes e) ds rs
          (All-append IsFound result (seen p.max_bytes e) h (seen-IsFound e r)) rest

    -- Where each entry of the directory is itself a directory, or a regular file and no symbolic link,
    -- with a plain name other than one dot, that can be opened and has not changed since it was
    -- listed, and where the limit is below the largest int64, the copy does not fail and the context
    -- is not done: GetSnapshot finds each snapshot that Discover lists, with the same name, type, time
    -- and size, and with the checksum of the whole file.
    pub discover-get :
        (es : List DirEntry) (ds : List DiscoveredSnapshot)
        → f.read_dir ≡ some es
        → All IsRegular es
        → discover p f ≡ some ds
        → All IsFound ds
    unfolding discover
    discover-get es ds listed_entries r h =
        collect-IsFound 0 es [] ds r tt (sym (ap (collect_all f p.max_bytes) listed_entries) ∙ h)
