-- ===== src/Notify/Examples.antt =====
-- The theorem on the webhook at one that is accepted.
use restoreguard.Common.{◌≡◌, refl, false, some, [], ◌∷◌, ◌++◌}
use restoreguard.Report.Text.{codes}
use restoreguard.Notify.{Event, Url, Address, Webhook, Network, webhook_of, new_webhook, notify}
use restoreguard.Notify.Delivery.{IsGoodUrl, IsDelivery, notify-IsDelivery}

abbrev url : Url
url = record {
  scheme = "https";
  has_user = false;
  hostname = "hooks.example";
  text = "https://hooks.example/drills";
}

abbrev public_address : Address
public_address = record {
  is_private = false;
  is_loopback = false;
  is_link_local = false;
  is_unspecified = false;
}

abbrev network : Network
network = record {
  parse_url = λ text. some url;
  lower = λ text. text;
  lookup = λ host. some (public_address ∷ []);
  encode = λ event. some (codes "{}");
  hmac_hex = λ key text. key ++ text;
  request_fails = false;
  respond = λ posted. some 204;
}

abbrev webhook : Webhook
webhook = record { endpoint = url; secret = codes "key"; allowed_hosts = "hooks.example" ∷ [] }

abbrev drill_failed : Event
drill_failed = record {
  organization_id = "acme";
  type = "drill.failed";
  resource_id = "d1";
  summary = "Drill failed";
  timestamp = 1000;
}

webhook-ok :
    new_webhook network "https://hooks.example/drills" (codes "key") ("hooks.example" ∷ [])
    ≡ some webhook
unfolding new_webhook webhook_of
webhook-ok = refl

notify-IsDelivery_example :
    (some url ≡ some webhook.endpoint)
    × IsGoodUrl network ("hooks.example" ∷ []) webhook.endpoint
    × IsDelivery network webhook.endpoint
        (codes "key")
        drill_failed
        (notify network webhook drill_failed)
notify-IsDelivery_example =
    notify-IsDelivery network "https://hooks.example/drills" (codes "key") ("hooks.example" ∷ [])
      webhook drill_failed webhook-ok
