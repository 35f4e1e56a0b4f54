-- ===== src/Notify/Delivery.antt =====
-- What a webhook sends, and when it reports success.
use restoreguard.Common.{
  ℕ, ◌≤◌, ◌<◌, ◌≡◌, refl, sym, ap, subst, ◌↔◌, inl, inr, Bool, true, false, ◌||◌, not, Option, none,
  some, List, [], ◌∷◌, ◌++◌, String, str_eq, eq_iff, ltb, length, any, if_cases, if_ne, All, Any,
  arith,
}
use restoreguard.Worker.World.{Bytes}
use restoreguard.Report.Text.{codes}
use restoreguard.Notify.{
  Event, Url, Address, Webhook, Posted, Network, lowered, is_allowed, webhook_of, new_webhook,
  is_restricted, payload_limit, of_status, request_of, send_payload, send_resolved, notify,
}

-- A URL over TLS without user information, on one of the hosts.
pub record IsGoodUrl (n : Network) (hosts : List String) (u : Url) : Type 0 where
  pub secure : u.scheme ≡ "https"
  pub anonymous : u.has_user ≡ false
  pub hosted : Any (λ (h : String). n.lower h ≡ n.lower u.hostname) hosts

abbrev IsUnrestricted : Address → Type 0
IsUnrestricted a = is_restricted a ≡ false

-- What is sent to the URL for an event.
pub record IsSafe (n : Network) (u : Url) (secret : Bytes) (event : Event) (r : Posted)
    : Type 0 where
  pub target : r.url ≡ u.text
  pub addresses : List Address
  pub resolved : n.lookup u.hostname ≡ some addresses
  pub unrestricted : All (λ (a : Address). is_restricted a ≡ false) addresses
  pub encoded : n.encode event ≡ some r.body
  pub bounded : length r.body ≤ payload_limit
  pub signed : r.signature ≡ codes "sha256=" ++ n.hmac_hex secret r.body

allowed-Any :
    (n : Network) (host : String) (hosts : List String)
    → is_allowed n (lowered n hosts) host ≡ true
    → Any (λ (h : String). n.lower h ≡ n.lower host) hosts
allowed-Any n host [] h = cc h
allowed-Any n host (x ∷ xs) h =
    if_or (str_eq (n.lower host) (n.lower x))
      (λ e. inl (sym ((eq_iff (n.lower host) (n.lower x)).0 e)))
      (λ k. inr (allowed-Any n host xs k)) h
  where
    if_or :
        (b : Bool) {c : Bool} {Q : Type 0} → (b ≡ true → Q) → (c ≡ true → Q) → (b || c) ≡ true → Q
    if_or true f g h = f refl
    if_or false f g h = g h

any-All : (found : List Address) → any is_restricted found ≡ false → All IsUnrestricted found
any-All [] h = tt
any-All (a ∷ rest) h = (ground (arith, h), any-All rest (ground (arith, h)))

abbrev IsSuccess : Option ℕ → Type 0
IsSuccess answer = (code : ℕ) × (answer ≡ some code) × (200 ≤ code) × (code < 300)

of_status_iff : (answer : Option ℕ) → (of_status answer ≡ false) ↔ IsSuccess answer
of_status_iff none = (λ h. cc h, λ (code, e, _, _). cc e)
of_status_iff (some c) = (
  λ h. (c, refl, ground (arith, h), ground (arith, h)),
  λ (code, e, low, high). ground (arith, e, low, high),
)

abbrev IsMade : Network → Bytes → List String → Option Url → Webhook → Type 0
IsMade n secret hosts u w =
    (u ≡ some w.endpoint) × (w.secret ≡ secret) × IsGoodUrl n hosts w.endpoint

webhook_of-IsMade :
    (n : Network) (secret : Bytes) (hosts : List String) (u : Option Url) (w : Webhook)
    → webhook_of n secret hosts u ≡ some w
    → IsMade n secret hosts u w
unfolding webhook_of
webhook_of-IsMade n secret hosts none w h = cc h
webhook_of-IsMade n secret hosts (some u) w h =
    let (good, k) =
      if_ne (not (str_eq u.scheme "https") || u.has_user || str_eq u.hostname "") (λ e. cc e) h in
    let (hosted, l) = if_ne (not (is_allowed n (lowered n hosts) u.hostname)) (λ e. cc e) k in
    let url : u ≡ w.endpoint = cc l in
    (
      ap some url,
      cc l,
      subst (IsGoodUrl n hosts) url (record {
        secure = ground (arith, good, eq_iff u.scheme "https");
        anonymous = ground (arith, good);
        hosted = allowed-Any n u.hostname hosts (ground (arith, hosted));
      }),
    )

-- Nothing is sent and an error is returned, or what is sent is safe and the answer decides.
abbrev pub IsDelivery : Network → Url → Bytes → Event → Bool × Option Posted → Type 0
IsDelivery n u secret event (failed, none) = failed ≡ true
IsDelivery n u secret event (failed, some r) =
    IsSafe n u secret event r × ((failed ≡ false) ↔ IsSuccess (n.respond r))

module _ (n : Network) (w : Webhook) (event : Event) where
  send_payload-IsDelivery :
      (addresses : List Address)
      → n.lookup w.endpoint.hostname ≡ some addresses
      → All IsUnrestricted addresses
      → (payload : Option Bytes) → n.encode event ≡ payload
      → IsDelivery n w.endpoint w.secret event (send_payload n w payload)
  unfolding send_payload
  send_payload-IsDelivery addresses found free none e = refl
  send_payload-IsDelivery addresses found free (some payload) e =
      if_cases (IsDelivery n w.endpoint w.secret event) (ltb payload_limit (length payload))
        (λ _. refl)
        (λ small.
          if_cases (IsDelivery n w.endpoint w.secret event) n.request_fails (λ _. refl)
            (λ _. (
              record {
                target = refl;
                addresses = addresses;
                resolved = found;
                unrestricted = free;
                encoded = e;
                bounded = ground (arith, small);
                signed = refl;
              },
              of_status_iff (n.respond (request_of n w payload)),
            )))

  send_resolved-IsDelivery :
      (found : Option (List Address))
      → n.lookup w.endpoint.hostname ≡ found
      → IsDelivery n w.endpoint w.secret event (send_resolved n w event found)
  unfolding send_resolved
  send_resolved-IsDelivery none e = refl
  send_resolved-IsDelivery (some addresses) e =
      if_cases (IsDelivery n w.endpoint w.secret event) (any is_restricted addresses) (λ _. refl)
        (λ free. send_payload-IsDelivery addresses e (any-All addresses free) (n.encode event) refl)

-- A webhook that NewWebhook accepted has a URL over TLS, without user information, on one of the
-- given hosts up to case; each Notify either sends nothing and returns an error, or posts to that
-- URL, while no address that its host was resolved to is private, loopback, link-local or
-- unspecified, the encoded event of at most 64 KiB with the signature of that payload, and returns
-- no error exactly where the answer has a code from 200 to 299.
pub notify-IsDelivery :
    (n : Network) (endpoint : String) (secret : Bytes) (hosts : List String) (w : Webhook)
    (event : Event)
    → new_webhook n endpoint secret hosts ≡ some w
    → (n.parse_url endpoint ≡ some w.endpoint)
      × IsGoodUrl n hosts w.endpoint
      × IsDelivery n w.endpoint secret event (notify n w event)
unfolding new_webhook notify
notify-IsDelivery n endpoint secret hosts w event h =
    let (parsed, key, good) = webhook_of-IsMade n secret hosts (n.parse_url endpoint) w h in
    (
      parsed,
      good,
      subst (λ k. IsDelivery n w.endpoint k event (notify n w event)) key
          (send_resolved-IsDelivery n w event (n.lookup w.endpoint.hostname) refl),
    )
