-- ===== src/Storage/Objects/Refinement.antt =====
-- The local storage refines a map from paths to contents.
use restoreguard.Common.{◌+◌, ◌^◌, ◌<◌, ◌≡◌, ◌⊎◌, none}
use restoreguard.Common.Int.{ℤ}
use restoreguard.Worker.World.{Bytes}
use restoreguard.Storage.Keys.{path}
use restoreguard.Storage.Local.{StoredInfo, Reply, error, ok, Local, Disk}
use restoreguard.Storage.Objects.{Request, Answer, done_answer}
use restoreguard.Storage.Objects.Contents.{Contents, Places, Fails, Fits, remember, Allowed}

module _ (l : Local) where
  -- One answer, and what the disk holds after it.
  abbrev Follows : Contents → Places → Request → Answer → Contents → Type 0
  Follows o s r a e = Allowed l o s l.fails r a × (e ≡ remember l r a o)

  module _ (key content content_type : Bytes) (size : ℤ) (small : l.max_bytes + 1 < 2 ^ 63) where
    -- An error of Put has one of the reasons.
    HasReason : Reply StoredInfo × Disk → Type 0
    HasReason (error e, d) = (path l.root key ≡ none) ⊎ ((Fits l size content → ⊥) ⊎ Fails l.fails)
    HasReason (ok info, d) = Unit {0}

  abbrev Done : Places → Request → Answer → Disk → Reply (Unit {0}) × Disk → Type 0
  Done s r a d (reply, after) = Follows d.files s r (done_answer a reply) after.files
