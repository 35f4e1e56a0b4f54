-- ===== src/Notify.antt =====
-- The webhook (backend/internal/notify/notifier.go: NewWebhook, Notify). The parser of URLs, the
-- resolver of names, the encoding and the network are parameters.
pub mod Delivery
pub mod Examples
use restoreguard.Common.{
  ℕ, ◌*◌, Bool, true, false, ◌&&◌, ◌||◌, not, Option, none, some, List, [], ◌∷◌, ◌++◌, map, String,
  str_eq, ltb, leb, length, any, if◌then◌else◌,
}
use restoreguard.Domain.Recovery.{Time}
use restoreguard.Worker.World.{Bytes}
use restoreguard.Report.Text.{codes}

pub record Event : Type 0 where
  pub organization_id : String
  pub type : String
  pub resource_id : String
  pub summary : String
  pub timestamp : Time

pub record Url : Type 0 where
  pub scheme : String
  pub has_user : Bool
  pub hostname : String
  pub text : String

-- What the tests of `net.IP` say of an address.
pub record Address : Type 0 where
  pub is_private : Bool
  pub is_loopback : Bool
  pub is_link_local : Bool
  pub is_unspecified : Bool

pub record Webhook : Type 0 where
  pub endpoint : Url
  pub secret : Bytes
  pub allowed_hosts : List String

pub record Posted : Type 0 where
  pub url : String
  pub content_type : String
  pub signature : Bytes
  pub body : Bytes

pub record Network : Type 0 where
  pub parse_url : String → Option Url
  pub lower : String → String
  pub lookup : String → Option (List Address)
  pub encode : Event → Option Bytes
  pub hmac_hex : Bytes → Bytes → Bytes
  pub request_fails : Bool
  -- the status code of the answer
  pub respond : Posted → Option ℕ

abbrev pub is_allowed : Network → List String → String → Bool
is_allowed n hosts hostname = any (str_eq (n.lower hostname)) hosts

abbrev pub lowered : Network → List String → List String
lowered n hosts = map n.lower hosts

unfoldable pub webhook_of : Network → Bytes → List String → Option Url → Option Webhook
webhook_of n secret hosts none = none
webhook_of n secret hosts (some u) =
    if not (str_eq u.scheme "https") || u.has_user || str_eq u.hostname ""
    then none
    else if not (is_allowed n (lowered n hosts) u.hostname)
    then none
    else some (record { endpoint = u; secret = secret; allowed_hosts = lowered n hosts })

unfoldable pub new_webhook : Network → String → Bytes → List String → Option Webhook
unfolding webhook_of
new_webhook n endpoint secret hosts = webhook_of n secret hosts (n.parse_url endpoint)

abbrev pub is_restricted : Address → Bool
is_restricted a = a.is_private || a.is_loopback || a.is_link_local || a.is_unspecified

abbrev pub payload_limit : ℕ
payload_limit = 64 * 1024

-- Whether an error is returned.
abbrev pub of_status : Option ℕ → Bool
of_status none = true
of_status (some code) = ltb code 200 || leb 300 code

abbrev pub request_of : Network → Webhook → Bytes → Posted
request_of n w payload = record {
  url = w.endpoint.text;
  content_type = "application/json";
  signature = codes "sha256=" ++ n.hmac_hex w.secret payload;
  body = payload;
}

-- Whether an error is returned, and the request that was sent.
unfoldable pub send_payload : Network → Webhook → Option Bytes → Bool × Option Posted
send_payload n w none = (true, none)
send_payload n w (some payload) =
    if ltb payload_limit (length payload)
    then (true, none)
    else if n.request_fails
    then (true, none)
    else (of_status (n.respond (request_of n w payload)), some (request_of n w payload))

unfoldable pub send_resolved :
    Network → Webhook → Event → Option (List Address) → Bool × Option Posted
unfolding send_payload
send_resolved n w event none = (true, none)
send_resolved n w event (some addresses) =
    if any is_restricted addresses then (true, none) else send_payload n w (n.encode event)

unfoldable pub notify : Network → Webhook → Event → Bool × Option Posted
unfolding send_resolved
notify n w event = send_resolved n w event (n.lookup w.endpoint.hostname)
