-- ===== src/Storage/Objects/Places.antt =====
-- Where the directories of the local storage (backend/internal/storage/local.go) may be.
use restoreguard.Common.{
  ◌≡◌, refl, sym, true, ◌||◌, not, Option, none, some, ltb, length, if_either, subst, arith,
}
use restoreguard.Common.Int.{ℤ}
use restoreguard.Worker.World.{Bytes}
use restoreguard.Storage.Keys.{Segments, path}
use restoreguard.Storage.Local.{
  StoredInfo, Reply, is_above, Local, Disk, exceeds, is_size, uploaded, put_upload, put_at, put,
  get, delete_at, delete, health, make_directory, create_upload, copy_upload, close_upload,
  rename_upload, remove_file, create_health, remove_health,
}
use restoreguard.Storage.Objects.{
  Request, putting, getting, deleting, checking, Answer, deleted, done_answer, perform,
}
use restoreguard.Storage.Objects.Contents.{Places, place_at, unplace_at, note}

-- The directories of the disk are where they may be.
abbrev pub Within : Disk → Places → Type 0
Within d s = (q : Segments) → d.directories q ≡ true → s q ≡ true

module _ (l : Local) where
  place_at-Within :
      (o : Option Segments) (d : Disk) (s : Places) → Within d s → Within d (place_at o s)
  place_at-Within none d s within q h = within q h
  place_at-Within (some p) d s within q h = ground (arith, within q, h)

  abbrev IsNoted : Request → Answer → Places → Reply (Unit {0}) × Disk → Type 0
  IsNoted r a s (reply, after) = Within after (note l r (done_answer a reply) s)

  abbrev IsPlaced : Segments → Places → Reply StoredInfo × Disk → Type 0
  IsPlaced p s r = Within r.1 (place_at (some p) s)

  put_at-Within :
      (key content content_type : Bytes) (size : ℤ) (o : Option Segments) (d : Disk) (s : Places)
      → Within d s
      → Within (put_at l key content size content_type o d).1 (place_at o s)
  unfolding put_at put_upload
  put_at-Within key content content_type size none d s within = within
  put_at-Within key content content_type size (some p) d s within =
      if_either (IsPlaced p s) (l.fails make_directory) (λ q h. ground (arith, h, within q))
        (if_either (IsPlaced p s) (l.fails create_upload) made (
          if_either (IsPlaced p s) (l.fails copy_upload || l.fails close_upload) made (
            if_either (IsPlaced p s)
              (ltb l.max_bytes (length (uploaded l content))
                || not (is_size size (length (uploaded l content))))
              made (if_either (IsPlaced p s) (l.fails rename_upload) made made))))
    where
      made :
          (q : Segments) → (is_above q p || d.directories q) ≡ true → (is_above q p || s q) ≡ true
      made q h = ground (arith, h, within q)

  put-Within :
      (key content content_type : Bytes) (size : ℤ) (d : Disk) (s : Places)
      → Within d s
      → Within (put l key content size content_type d).1 (place_at (path l.root key) s)
  unfolding put
  put-Within key content content_type size d s within =
      if_either (λ (r : Reply StoredInfo × Disk). Within r.1 (place_at (path l.root key) s))
        (exceeds size l.max_bytes) (place_at-Within (path l.root key) d s within)
        (put_at-Within key content content_type size (path l.root key) d s within)

  delete_at-Within :
      (key : Bytes) (at : Option Segments) (d : Disk) (s : Places)
      → path l.root key ≡ at
      → Within d s
      → IsNoted (deleting key) deleted s (delete_at l at d)
  unfolding delete_at
  delete_at-Within key none d s e within = within
  delete_at-Within key (some p) d s e within =
      if_either (IsNoted (deleting key) deleted s) (l.fails remove_file) within
        (λ q h. subst (λ at. unplace_at at s q ≡ true) (sym e) (ground (arith, h, within q)))

  pub perform-Within :
      (r : Request) (d : Disk) (s : Places)
      → Within d s
      → Within (perform l r d).1 (note l r (perform l r d).0 s)
  unfolding perform get delete health
  perform-Within (putting key content size content_type) d s within =
      put-Within key content content_type size d s within
  perform-Within (getting key) d s within = within
  perform-Within (deleting key) d s within = delete_at-Within key (path l.root key) d s refl within
  perform-Within checking d s within =
      if_either (λ (r : Reply (Unit {0}) × Disk). Within r.1 s) (l.fails create_health) within
        (if_either (λ (r : Reply (Unit {0}) × Disk). Within r.1 s) (l.fails remove_health) within
          within)
