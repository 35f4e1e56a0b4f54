-- ===== src/Hub.antt =====
-- The subscriptions of the event hub (backend/internal/drill/hub.go: NewEventHub, Subscribe with the
-- function that it returns, Publish, Close). Each operation holds the lock, so a run of the hub is a
-- sequence of operations. A channel is its number; what a reader takes is one of the operations.
pub mod Channels
pub mod Examples
use restoreguard.Common.{
  ℕ, suc, ◌+◌, ◌-◌, Bool, true, false, ◌&&◌, not, List, [], ◌∷◌, ◌++◌, String, str_eq, ◌==◌, ltb,
  any, map, if◌then◌else◌,
}

-- A subscription: the drill, the channel and how many events its buffer holds.
pub record Subscription : Type 0 where
  pub drill_id : String
  pub channel : ℕ
  pub buffered : ℕ

pub record EventHub : Type 0 where
  pub subscribers : List Subscription
  -- the channels closed so far, one entry for each call of `close`
  pub closed : List ℕ
  -- the next channel that `make` gives
  pub fresh : ℕ

abbrev pub new_event_hub : EventHub
new_event_hub = record { subscribers = []; closed = []; fresh = 0 }

unfoldable pub subscribe : String → EventHub → EventHub
subscribe drill_id h = record h {
  subscribers = record { drill_id = drill_id; channel = h.fresh; buffered = 0 } ∷ h.subscribers;
  fresh = suc h.fresh;
}

abbrev pub is_entry : String → ℕ → Subscription → Bool
is_entry drill_id channel s = str_eq s.drill_id drill_id && s.channel == channel

-- `delete(h.subscribers[drillID], channel)`
unfoldable pub without : String → ℕ → List Subscription → List Subscription
without drill_id channel [] = []
without drill_id channel (s ∷ ss) =
    let rest = without drill_id channel ss in if is_entry drill_id channel s then rest else s ∷ rest

-- The function that Subscribe returns, which may be called again.
unfoldable pub unsubscribe : String → ℕ → EventHub → EventHub
unfolding without
unsubscribe drill_id channel h =
    if any (is_entry drill_id channel) h.subscribers
    then record h {
      subscribers = without drill_id channel h.subscribers;
      closed = channel ∷ h.closed;
    }
    else h

abbrev pub capacity : ℕ
capacity = 32

-- The send of one event: it is dropped where the buffer is full.
abbrev pub deliver : String → Subscription → Subscription
deliver drill_id s =
    if str_eq s.drill_id drill_id && ltb s.buffered capacity
    then record s { buffered = suc s.buffered }
    else s

unfoldable pub publish : String → EventHub → EventHub
publish drill_id h = record h { subscribers = map (deliver drill_id) h.subscribers }

abbrev pub take_one : ℕ → Subscription → Subscription
take_one channel s = if s.channel == channel then record s { buffered = s.buffered - 1 } else s

-- A reader takes an event.
unfoldable pub receive : ℕ → EventHub → EventHub
receive channel h = record h { subscribers = map (take_one channel) h.subscribers }

abbrev pub channels : List Subscription → List ℕ
channels [] = []
channels (s ∷ ss) = s.channel ∷ channels ss

unfoldable pub close : EventHub → EventHub
close h = record h { subscribers = []; closed = channels h.subscribers ++ h.closed }

pub data Operation : Type 0 where
  subscribing publishing : String → Operation
  unsubscribing : String → ℕ → Operation
  receiving : ℕ → Operation
  closing : Operation

unfoldable pub step : Operation → EventHub → EventHub
unfolding subscribe publish unsubscribe receive close
step (subscribing drill_id) h = subscribe drill_id h
step (publishing drill_id) h = publish drill_id h
step (unsubscribing drill_id channel) h = unsubscribe drill_id channel h
step (receiving channel) h = receive channel h
step closing h = close h

unfoldable pub run_hub : List Operation → EventHub → EventHub
unfolding step
run_hub [] h = h
run_hub (o ∷ os) h = run_hub os (step o h)
