-- ===== src/Storage/Local/Laws.antt =====
-- What the local object storage promises.
use restoreguard.Common.{
  ℕ, ◌+◌, ◌^◌, ◌<◌, ◌≡◌, refl, ap, subst, ◌∙◌, ◌≢◌, true, false, ◌||◌, Option, none, some, [], ◌∷◌,
  arith, length, not, if_either, if_cases, ltb, ◌≤◌,
}
use restoreguard.Common.Int.{ℤ, pos, negsuc}
use restoreguard.Worker.World.{Bytes}
use restoreguard.Worker.Backup.{read_limited}
use restoreguard.Worker.Backup.Integrity.{take-all}
use restoreguard.Storage.Keys.{Segments, path}
use restoreguard.Storage.Keys.Inside.{same_bytes_refl, same_bytes-eq}
use restoreguard.Storage.Local.{
  StoredInfo, assign, is_size, exceeds, not_exist, Reply, error, ok, Local, Disk, same_path,
  uploaded, info_of, whole_file, sized, put_upload, put_at, put, get_at, get, delete_at, delete,
  make_directory, create_upload, copy_upload, close_upload, rename_upload, open_file, stat_file,
  remove_file,
}

same_path_refl : (p : Segments) → same_path p p ≡ true
unfolding same_path
same_path_refl [] = refl
same_path_refl (s ∷ ss) = ground (arith, same_bytes_refl s, same_path_refl ss)

same_path-eq : (p q : Segments) → same_path p q ≡ true → p ≡ q
unfolding same_path
same_path-eq [] [] h = refl
same_path-eq [] (y ∷ ys) h = cc
same_path-eq (x ∷ xs) [] h = cc
same_path-eq (x ∷ xs) (y ∷ ys) h =
    let rest : same_path xs ys ≡ true → xs ≡ ys = same_path-eq xs ys in
    ground (arith, rest, same_bytes-eq x y)

-- An upload that is within the limit was read whole.
uploaded-whole :
    (l : Local) (content : Bytes)
    → l.max_bytes + 1 < 2 ^ 63
    → ltb l.max_bytes (length (uploaded l content)) ≡ false
    → uploaded l content ≡ content
unfolding read_limited
uploaded-whole l content small h = ground (arith, take-all (l.max_bytes + 1) content)

is_size-eq : (size : ℤ) (n : ℕ) → is_size size n ≡ true → size ≡ pos n
is_size-eq (pos m) n h = ground arith
is_size-eq (negsuc m) n h = ground arith

assign-same :
    (p : Segments) (o : Option Bytes) (files : Segments → Option Bytes) → assign p o files p ≡ o
assign-same p o files = rw (same_path_refl p)

module _ (l : Local) (key content content_type : Bytes) (size : ℤ) where
  -- The result of Put and the disk after it.
  abbrev pub Stores : Disk → Reply StoredInfo × Disk → Type 0
  Stores d (error e, e_disk) = (q : Segments) → e_disk.files q ≡ d.files q
  Stores d (ok info, o_disk) =
      (p : Segments) × (path l.root key ≡ some p)
      × (size ≡ pos (length content))
      × (length content ≤ l.max_bytes)
      × (info ≡ info_of l key content content_type)
      × ((q : Segments) → o_disk.files q ≡ assign p (some content) d.files q)

  put_at-Stores :
      (o : Option Segments) (d : Disk)
      → path l.root key ≡ o
      → l.max_bytes + 1 < 2 ^ 63
      → Stores d (put_at l key content size content_type o d)
  unfolding put_at put_upload
  put_at-Stores none d e small = λ q. refl
  put_at-Stores (some p) d e small =
      let body = uploaded l content in
      if_either (Stores d) (l.fails make_directory) (λ q. refl)
        (if_either (Stores d) (l.fails create_upload) (λ q. refl)
          (if_either (Stores d) (l.fails copy_upload || l.fails close_upload) (λ q. refl)
            (if_cases (Stores d) (ltb l.max_bytes (length body) || not (is_size size (length body)))
              (λ r q. refl)
              λ r.
                if_either (Stores d) (l.fails rename_upload) (λ q. refl)
                  (let whole = uploaded-whole l content small (ground arith) in
                    (
                      p,
                      e,
                      is_size-eq size (length body) (ground arith) ∙ ap (λ c. pos (length c)) whole,
                      subst (λ c. length c ≤ l.max_bytes) whole (ground arith),
                      ap (λ c. info_of l key c content_type) whole,
                      λ q. ap (λ c. assign p (some c) d.files q) whole,
                    )))))

  -- For a limit below the largest int64: a Put that returns an error changes no object, and a Put
  -- that succeeds had a safe key and a content of the stated size within the limit, returns the
  -- key, the size, the hash and the type of the whole content, and makes it the object at the path
  -- of the key, and changes no object at another path.
  pub put-Stores :
      (d : Disk) → l.max_bytes + 1 < 2 ^ 63 → Stores d (put l key content size content_type d)
  unfolding put
  put-Stores d small =
      if_either (Stores d) (exceeds size l.max_bytes) (λ q. refl)
        (put_at-Stores (path l.root key) d refl small)

  -- What a Put that succeeded wrote, Get gives back, with its size, unless the file cannot be opened.
  put-get :
      (d e : Disk) (info : StoredInfo)
      → l.max_bytes + 1 < 2 ^ 63
      → (l.fails open_file || l.fails stat_file) ≡ false
      → put l key content size content_type d ≡ (ok info, e)
      → get l key e ≡ ok (whole_file content, sized key (length content))
  unfolding get get_at
  put-get d e info small o h =
      let (p, at, _, _, _, files) = subst (Stores d) h (put-Stores d small) in
      let found = files p ∙ assign-same p (some content) d.files in rw (at, found, o)

assign-other :
    (p q : Segments) (o : Option Bytes) (files : Segments → Option Bytes)
    → p ≢ q
    → assign p o files q ≡ files q
assign-other p q o files n =
    if_cases (λ x. x ≡ files q) (same_path p q) (λ h. absurd (n (same_path-eq p q h))) (λ _. refl)

module _ (l : Local) (key : Bytes) where
  -- What is at the path is gone, and the other files are as they were.
  abbrev Removes : Segments → Disk → Disk → Type 0
  Removes p d e =
      (e.files p ≡ none)
      × (e.directories p ≡ false)
      × ((q : Segments) → p ≢ q → e.files q ≡ d.files q)

  delete_at-Removes :
      (p : Segments) (d e : Disk) → delete_at l (some p) d ≡ (ok tt, e) → Removes p d e
  unfolding delete_at
  delete_at-Removes p d e h =
      if_cases (λ (r : Reply (Unit {0}) × Disk). r ≡ (ok tt, e) → Removes p d e)
        (l.fails remove_file) (λ _ k. cc k)
        (λ _ k. subst (Removes p d) (ap (λ (r : Reply (Unit {0}) × Disk). r.1) k) (
          assign-same p none d.files,
          rw (same_path_refl p) refl,
          λ q n. assign-other p q none d.files n,
        ))
        h

  delete_at-lem :
      (o : Option Segments) (d e : Disk)
      → delete_at l o d ≡ (ok tt, e)
      → (get_at l key o e ≡ error not_exist) × ((q : Segments) → o ≢ some q → e.files q ≡ d.files q)
  unfolding delete_at get_at
  delete_at-lem none d e h = cc h
  delete_at-lem (some p) d e h =
      let (gone, unmade, others) = delete_at-Removes p d e h in
      (rw (gone, unmade) refl, λ q n. others q (λ k. n (ap some k)))

  -- After a Delete that succeeded, Get reports that the object does not exist, and no object at
  -- another path is changed.
  delete-get :
      (d e : Disk)
      → delete l key d ≡ (ok tt, e)
      → (get l key e ≡ error not_exist)
        × ((q : Segments) → path l.root key ≢ some q → e.files q ≡ d.files q)
  unfolding delete get
  delete-get d e h = delete_at-lem (path l.root key) d e h
