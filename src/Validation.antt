-- ===== src/Validation.antt =====
-- The validation engine (backend/internal/drill/validation.go: Run, verifySHA, httpHealth). What the
-- operating system, the parser of addresses and the network answer is a parameter.
pub mod Outcomes
pub mod Examples
use restoreguard.Common.{
  ℕ, ◌+◌, Bool, true, false, ◌&&◌, ◌||◌, not, Option, none, some, ◌⊎◌, inl, inr, String, ltb, leb,
  length, if◌then◌else◌,
}
use restoreguard.Common.Int.{ℤ, pos, ltb_ℤ}
use restoreguard.Domain.Recovery.{ValidationStatus, passed, failed, undecided}
use restoreguard.Worker.World.{Bytes}
use restoreguard.Worker.Backup.{equal_fold, read_limited}

pub data ValidationType : Type 0 where
  file_exists file_size sha256 postgres_connectivity postgres_table_exists : ValidationType
  postgres_row_count http_health : ValidationType

pub record ValidationCheck : Type 0 where
  pub type : ValidationType
  pub path : String
  pub expected_sha256 : Bytes
  pub min_bytes : ℤ
  pub url : String

-- An error that is the end of the context, and any other.
pub data CheckError : Type 0 where
  interrupted wrong : CheckError

-- What the parser says of the host of a URL.
pub data Address : Type 0 where
  loopback private_address public_address no_address : Address

pub record Surroundings : Type 0 where
  pub max_file_bytes : ℕ
  -- the context is done before the check begins
  pub done : Bool
  pub stat : String → CheckError ⊎ ℕ
  pub open_error : String → Option CheckError
  pub content : String → Bytes
  pub copy_error : Option CheckError
  pub sha256_hex : Bytes → Bytes
  pub parse_url : String → CheckError ⊎ Address
  -- the status code of the answer to a GET without redirects
  pub respond : String → CheckError ⊎ ℕ

abbrev pub of_stat : CheckError ⊎ ℕ → Option CheckError
of_stat (inl e) = some e
of_stat (inr n) = none

abbrev pub of_size : ℤ → CheckError ⊎ ℕ → Option CheckError
of_size min_bytes (inl e) = some e
of_size min_bytes (inr n) = if ltb_ℤ (pos n) min_bytes then some wrong else none

abbrev pub hashed : Surroundings → String → Bytes
hashed s path = read_limited s.max_file_bytes (s.content path)

abbrev after_copy : Surroundings → String → Bytes → Option CheckError → Option CheckError
after_copy s path expected (some e) = some e
after_copy s path expected none =
    if ltb s.max_file_bytes (length (hashed s path))
    then some wrong
    else if not (equal_fold (s.sha256_hex (hashed s path)) expected)
    then some wrong
    else none

abbrev after_open : Surroundings → String → Bytes → Option CheckError → Option CheckError
after_open s path expected (some e) = some e
after_open s path expected none = after_copy s path expected s.copy_error

unfoldable pub verify_sha : Surroundings → String → Bytes → Option CheckError
verify_sha s path expected = after_open s path expected (s.open_error path)

abbrev pub is_authorized : Address → Bool
is_authorized loopback = true
is_authorized private_address = true
is_authorized public_address = false
is_authorized no_address = false

abbrev pub of_response : CheckError ⊎ ℕ → Option CheckError
of_response (inl e) = some e
of_response (inr code) = if ltb code 200 || leb 300 code then some wrong else none

-- The error, and whether a request was sent.
abbrev pub after_parse : Surroundings → String → CheckError ⊎ Address → Option CheckError × Bool
after_parse s url (inl e) = (some e, false)
after_parse s url (inr address) =
    if not (is_authorized address) then (some wrong, false) else (of_response (s.respond url), true)

unfoldable pub http_get : Surroundings → String → Option CheckError × Bool
http_get s url = after_parse s url (s.parse_url url)

-- The `switch` of Run.
unfoldable pub perform : Surroundings → ValidationCheck → ValidationType → Option CheckError × Bool
unfolding verify_sha http_get
perform s c file_exists = (of_stat (s.stat c.path), false)
perform s c file_size = (of_size c.min_bytes (s.stat c.path), false)
perform s c sha256 = (verify_sha s c.path c.expected_sha256, false)
perform s c http_health = http_get s c.url
perform s c postgres_connectivity = (some wrong, false)
perform s c postgres_table_exists = (some wrong, false)
perform s c postgres_row_count = (some wrong, false)

abbrev pub status_of : Option CheckError → ValidationStatus
status_of none = passed
status_of (some interrupted) = undecided
status_of (some wrong) = failed

-- The status, and whether a request was sent.
unfoldable pub run_check : Surroundings → ValidationCheck → ValidationStatus × Bool
unfolding perform
run_check s c =
    if s.done
    then (undecided, false)
    else (let (e, sent) = perform s c c.type in (status_of e, sent))
