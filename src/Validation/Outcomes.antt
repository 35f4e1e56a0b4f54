-- ===== src/Validation/Outcomes.antt =====
-- What the status of a validation means.
use restoreguard.Common.{
  ℕ, ◌+◌, ◌^◌, ◌≤◌, ◌<◌, ◌≡◌, refl, sym, ap, ◌∙◌, ◌↔◌, ◌⊎◌, inl, inr, Bool, true, false, none, some,
  String, length, arith, if◌then◌else◌,
}
use restoreguard.Common.Int.{ℤ, pos, ◌≤ℤ◌, ltb_ℤ}
use restoreguard.Domain.Recovery.{passed}
use restoreguard.Worker.World.{Bytes}
use restoreguard.Worker.Backup.Integrity.{SameText, equal_fold_iff, read-whole, read-within}
use restoreguard.Validation.{
  ValidationType, file_exists, file_size, sha256, http_health, postgres_connectivity,
  postgres_table_exists, postgres_row_count, ValidationCheck, CheckError, Address, loopback,
  private_address, public_address, no_address, Surroundings, is_authorized, verify_sha, http_get,
  perform, run_check, status_of, of_stat, of_size, of_response, after_parse, interrupted, wrong,
}

of_stat_iff : (o : CheckError ⊎ ℕ) → (status_of (of_stat o) ≡ passed) ↔ ((n : ℕ) × (o ≡ inr n))
of_stat_iff (inl interrupted) = (λ h. cc h, λ (n, e). cc e)
of_stat_iff (inl wrong) = (λ h. cc h, λ (n, e). cc e)
of_stat_iff (inr n) = (λ h. (n, refl), λ _. refl)

of_size_iff :
    (m : ℤ) (o : CheckError ⊎ ℕ)
    → (status_of (of_size m o) ≡ passed) ↔ ((n : ℕ) × (o ≡ inr n) × (m ≤ℤ pos n))
of_size_iff m (inl interrupted) = (λ h. cc h, λ (n, e, _). cc e)
of_size_iff m (inl wrong) = (λ h. cc h, λ (n, e, _). cc e)
of_size_iff m (inr n) =
    (λ h. (n, refl, ground (arith, sized (ltb_ℤ (pos n) m) h)), λ (k, e, h). ground (arith, e, h))
  where
    sized : (b : Bool) → status_of (if b then some wrong else none) ≡ passed → b ≡ false
    sized true h = cc h
    sized false h = refl

of_response_iff :
    (o : CheckError ⊎ ℕ)
    → (status_of (of_response o) ≡ passed) ↔ ((n : ℕ) × (o ≡ inr n) × (200 ≤ n) × (n < 300))
of_response_iff (inl interrupted) = (λ h. cc h, λ (n, e, _, _). cc e)
of_response_iff (inl wrong) = (λ h. cc h, λ (n, e, _, _). cc e)
of_response_iff (inr n) = (λ h. (n, refl, ground arith, ground arith), λ (k, e, l, u). ground arith)

abbrev is_granted : CheckError ⊎ Address → Bool
is_granted (inl e) = false
is_granted (inr address) = is_authorized address

-- A loopback or private address is authorized.
refused :
    (a b : Address) → a ≡ b → is_authorized b ≡ false → (a ≡ loopback) ⊎ (a ≡ private_address) → ⊥
refused a b e n (inl k) = cc (n, ap is_authorized (sym e ∙ k))
refused a b e n (inr k) = cc (n, ap is_authorized (sym e ∙ k))

module _ (s : Surroundings) (small : s.max_file_bytes + 1 < 2 ^ 63) where
  -- The file was opened and read, is as a whole within the limit, and has the expected hash up to the
  -- case of letters.
  abbrev HasHash : String → Bytes → Type 0
  HasHash path expected =
      (s.open_error path ≡ none)
      × (s.copy_error ≡ none)
      × (length (s.content path) ≤ s.max_file_bytes)
      × SameText (s.sha256_hex (s.content path)) expected

  -- The URL names a loopback or private address, which answers with a code of success.
  abbrev IsHealthy : String → Type 0
  IsHealthy url =
      (address : Address) × (code : ℕ) × (s.parse_url url ≡ inr address)
      × ((address ≡ loopback) ⊎ (address ≡ private_address))
      × (s.respond url ≡ inr code)
      × (200 ≤ code)
      × (code < 300)

  -- What a check asks for.
  abbrev pub Meets : ValidationCheck → ValidationType → Type 0
  Meets c file_exists = (n : ℕ) × (s.stat c.path ≡ inr n)
  Meets c file_size = (n : ℕ) × (s.stat c.path ≡ inr n) × (c.min_bytes ≤ℤ pos n)
  Meets c sha256 = HasHash c.path c.expected_sha256
  Meets c http_health = IsHealthy c.url
  Meets c postgres_connectivity = ⊥
  Meets c postgres_table_exists = ⊥
  Meets c postgres_row_count = ⊥

  verify_sha-HasHash :
      (path : String) (expected : Bytes)
      → (status_of (verify_sha s path expected) ≡ passed) ↔ HasHash path expected
  unfolding verify_sha
  verify_sha-HasHash path expected = ground (
    arith,
    read-within s.max_file_bytes (s.content path) small,
    read-whole s.max_file_bytes (s.content path) small,
    equal_fold_iff (s.sha256_hex (s.content path)) expected,
  )

  http_get-IsHealthy : (url : String) → (status_of (http_get s url).0 ≡ passed) ↔ IsHealthy url
  unfolding http_get
  http_get-IsHealthy url = by_parse (s.parse_url url) refl
    where
      by_parse :
          (o : CheckError ⊎ Address)
          → s.parse_url url ≡ o
          → (status_of (after_parse s url o).0 ≡ passed) ↔ IsHealthy url
      by_parse (inl interrupted) e = (λ h. cc h, λ (a, n, p, _, _, _, _). cc (e, p))
      by_parse (inl wrong) e = (λ h. cc h, λ (a, n, p, _, _, _, _). cc (e, p))
      by_parse (inr loopback) e =
          let answer = of_response_iff (s.respond url) in
          (
            λ h. let (n, r, l, u) = answer.0 h in (loopback, n, e, inl refl, r, l, u),
            λ (a, n, p, _, r, l, u). answer.1 (n, r, l, u),
          )
      by_parse (inr private_address) e =
          let answer = of_response_iff (s.respond url) in
          (
            λ h. let (n, r, l, u) = answer.0 h in (private_address, n, e, inr refl, r, l, u),
            λ (a, n, p, _, r, l, u). answer.1 (n, r, l, u),
          )
      by_parse (inr public_address) e = (
        λ h. cc h,
        λ (a, n, p, ok, _, _, _). absurd (refused a public_address (cc (sym p ∙ e)) refl ok),
      )
      by_parse (inr no_address) e = (
        λ h. cc h,
        λ (a, n, p, ok, _, _, _). absurd (refused a no_address (cc (sym p ∙ e)) refl ok),
      )

  perform-Meets :
      (c : ValidationCheck) (t : ValidationType)
      → (status_of (perform s c t).0 ≡ passed) ↔ Meets c t
  unfolding perform
  perform-Meets c file_exists = of_stat_iff (s.stat c.path)
  perform-Meets c file_size = of_size_iff c.min_bytes (s.stat c.path)
  perform-Meets c sha256 = verify_sha-HasHash c.path c.expected_sha256
  perform-Meets c http_health = http_get-IsHealthy c.url
  perform-Meets c postgres_connectivity = ground arith
  perform-Meets c postgres_table_exists = ground arith
  perform-Meets c postgres_row_count = ground arith

  -- With a limit below the largest int64: a check passes exactly when the context was not done at its
  -- beginning and the check's own condition holds: the file exists; it exists and has at least the
  -- smallest size; it could be opened and read, its whole content is within the limit, and the hash of
  -- that content is the expected one up to case; or the URL names a loopback or private address that
  -- answers with a code from 200 to 299. The checks of PostgreSQL never pass.
  pub run_check_iff :
      (c : ValidationCheck) → ((run_check s c).0 ≡ passed) ↔ ((s.done ≡ false) × Meets c c.type)
  unfolding run_check
  run_check_iff c = ground (arith, perform-Meets c c.type)

  after_parse-is_granted :
      (url : String) (o : CheckError ⊎ Address)
      → (after_parse s url o).1 ≡ true
      → is_granted o ≡ true
  after_parse-is_granted url (inl e) h = cc h
  after_parse-is_granted url (inr loopback) h = refl
  after_parse-is_granted url (inr private_address) h = refl
  after_parse-is_granted url (inr public_address) h = cc h
  after_parse-is_granted url (inr no_address) h = cc h

  perform-is_granted :
      (c : ValidationCheck) (t : ValidationType)
      → (perform s c t).1 ≡ true
      → (t ≡ http_health) × (is_granted (s.parse_url c.url) ≡ true)
  unfolding perform http_get
  perform-is_granted c file_exists h = cc h
  perform-is_granted c file_size h = cc h
  perform-is_granted c sha256 h = cc h
  perform-is_granted c http_health h = (refl, after_parse-is_granted c.url (s.parse_url c.url) h)
  perform-is_granted c postgres_connectivity h = cc h
  perform-is_granted c postgres_table_exists h = cc h
  perform-is_granted c postgres_row_count h = cc h

  -- A request is sent only for a check of HTTP health, and only to a loopback or private address.
  run_check-is_granted :
      (c : ValidationCheck)
      → (run_check s c).1 ≡ true
      → (c.type ≡ http_health) × (is_granted (s.parse_url c.url) ≡ true)
  unfolding run_check
  run_check-is_granted c h = ground (arith, perform-is_granted c c.type)
