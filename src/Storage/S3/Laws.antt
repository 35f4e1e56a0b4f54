-- ===== src/Storage/S3/Laws.antt =====
-- What is read back from the bucket.
use restoreguard.Common.{
  ℕ, ◌≤◌, ◌≡◌, refl, ap, ◌∙◌, ◌≢◌, true, ◌||◌, not, Option, none, some, [], subst, length, if_cases,
  if_ne, arith,
}
use restoreguard.Common.Int.{pos}
use restoreguard.Worker.World.{Bytes}
use restoreguard.Storage.Keys.{safe_key}
use restoreguard.Storage.Local.{StoredInfo, Reply, error, ok, exceeds}
use restoreguard.Storage.S3.{Upload, Stat, Client, put_reply, put, opened, get}

-- What the client is documented to do, where `holds` says what a bucket has under a key: a PutObject
-- of a content of the stated size that succeeds has read it and makes it the object of the key, with
-- its type, and changes no other object; what GetObject and Stat report is what the key has.
pub record IsBucket {B : Type 0} (c : Client B) (holds : B → Bytes → Option (Bytes × Bytes))
    : Type 0 where
  pub written :
      (key content content_type : Bytes) (b : B) (u : Upload)
      → (c.put_object key content (length content) content_type b).0 ≡ some u
      → (u ≡ record { size = length content; read = content })
        × (holds (c.put_object key content (length content) content_type b).1 key
            ≡ some (content, content_type))
        × ((other : Bytes)
            → other ≢ key
            → holds (c.put_object key content (length content) content_type b).1 other
              ≡ holds b other)
  pub opened_content :
      (key content content_type opened : Bytes) (b : B)
      → holds b key ≡ some (content, content_type)
      → c.get_object key b ≡ some opened
      → opened ≡ content
  pub opened_stat :
      (key content content_type : Bytes) (b : B) (s : Stat)
      → holds b key ≡ some (content, content_type)
      → c.stat_object key b ≡ some s
      → s ≡ (length content, content_type)

abbrev pub info_for : Bytes → Bytes → Bytes → Bytes → StoredInfo
info_for key content content_type sha256 = record {
  key = key;
  size = length content;
  sha256 = sha256;
  content_type = content_type;
}

module _ {B : Type 0} (c : Client B) (holds : B → Bytes → Option (Bytes × Bytes))
    (bucket : IsBucket c holds) where
  Reads : Bytes → Bytes → Bytes → Reply (Bytes × StoredInfo) → Type 0
  Reads key content content_type (error e) = Unit {0}
  Reads key content content_type (ok r) = r ≡ (content, info_for key content content_type [])

  opened-Reads :
      (key content content_type : Bytes) (b : B)
      → holds b key ≡ some (content, content_type)
      → (x : Option Bytes) (s : Option Stat) → c.get_object key b ≡ x
      → c.stat_object key b ≡ s
      → Reads key content content_type (opened c key x s)
  unfolding Reads
  opened-Reads key content content_type b h none s e k = tt
  opened-Reads key content content_type b h (some x) none e k = tt
  opened-Reads key content content_type b h (some x) (some (size, type)) e k =
      let same = bucket.opened_content key content content_type x b h e in
      let told = bucket.opened_stat key content content_type b (size, type) h k in
      λ j. (same j, record { key = key; size = (told j).0; sha256 = []; content_type = (told j).1 })

  get-Reads :
      (key content content_type : Bytes) (b : B)
      → holds b key ≡ some (content, content_type)
      → Reads key content content_type (get c key b)
  unfolding get Reads
  get-Reads key content content_type b h =
      if_cases (Reads key content content_type) (not (safe_key key)) (λ _. tt)
        (λ _.
          opened-Reads key content content_type b h (c.get_object key b) (c.stat_object key b) refl
            refl)

  -- What a Put that succeeds leaves.
  pub record IsKept (max_bytes : ℕ) (key content content_type : Bytes) (i : StoredInfo)
      (b after : B) : Type 0 where
    pub safe : safe_key key ≡ true
    pub bounded : length content ≤ max_bytes
    pub told : i ≡ info_for key content content_type (c.sha256_hex content)
    pub read :
        (r : Bytes × StoredInfo)
        → get c key after ≡ ok r
        → r ≡ (content, info_for key content content_type [])
    pub others : (other : Bytes) → other ≢ key → holds after other ≡ holds b other

  abbrev info_of_upload : Bytes → Bytes → Upload → StoredInfo
  info_of_upload key content_type u = record {
    key = key;
    size = u.size;
    sha256 = c.sha256_hex u.read;
    content_type = content_type;
  }

  reply-accepted :
      (key content_type : Bytes) (i : StoredInfo) (o : Option Upload)
      → put_reply c key content_type o ≡ ok i
      → (u : Upload) × (o ≡ some u) × (i ≡ info_of_upload key content_type u)
  reply-accepted key content_type i none h = cc h
  reply-accepted key content_type i (some u) h = (u, refl, cc h)

  -- With a bucket that behaves as documented, and a content of the stated size: a Put that succeeds
  -- had a safe key and a content within the limit, tells the key, size, hash and type of the whole
  -- content, changes no object of another key, and a Get of the key that succeeds gives that content
  -- with its size and type.
  pub put-IsKept :
      (max_bytes : ℕ) (key content content_type : Bytes) (i : StoredInfo) (b after : B)
      → put c max_bytes key content (pos (length content)) content_type b ≡ (ok i, after)
      → IsKept max_bytes key content content_type i b after
  unfolding put Reads
  put-IsKept max_bytes key content content_type i b after h =
      let (fits, k) =
        if_ne (not (safe_key key) || exceeds (pos (length content)) max_bytes) (λ e. cc e) h in
      let sent = c.put_object key content (length content) content_type b in
      let (u, accepted, made) =
        reply-accepted key content_type i sent.0 (ap (λ (r : Reply StoredInfo × B). r.0) k) in
      let (whole, there, others) = bucket.written key content content_type b u accepted in
      let moved : sent.1 ≡ after = ap (λ (r : Reply StoredInfo × B). r.1) k in
      record {
        safe = ground (arith, fits);
        bounded = ground (arith, fits);
        told = made ∙ ap (info_of_upload key content_type) whole;
        read = λ r e. subst (Reads key content content_type) e (
            get-Reads key content content_type after
              (subst (λ x. holds x key ≡ some (content, content_type)) moved there));
        others =
            subst (λ x. (other : Bytes) → other ≢ key → holds x other ≡ holds b other) moved others;
      }
