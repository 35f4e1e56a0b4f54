-- ===== src/Hub/Channels.antt =====
-- The channels of the hub, live and closed.
use restoreguard.Common.{
  ℕ, suc, ◌+◌, ◌≤◌, ◌≡◌, refl, subst, sym, true, List, [], ◌∷◌, ◌++◌, String, ◌==◌, any, map, arith,
  All, if_cases, if◌then◌else◌,
}
use restoreguard.Hub.{
  Subscription, EventHub, new_event_hub, subscribe, is_entry, without, unsubscribe, capacity,
  deliver, publish, take_one, receive, channels, close, Operation, subscribing, publishing,
  unsubscribing, receiving, closing, step, run_hub,
}

-- How often a number occurs.
abbrev pub count : ℕ → List ℕ → ℕ
count k [] = 0
count k (x ∷ xs) = let rest = count k xs in if x == k then suc rest else rest

count-append : (k : ℕ) (xs ys : List ℕ) → count k (xs ++ ys) ≡ count k xs + count k ys
count-append k [] ys = omega arith
count-append k (x ∷ xs) ys = ground (arith, count-append k xs ys)

-- Each channel is live at most once or closed at most once, never both; fresh channels are neither;
-- and no buffer holds more than its capacity.
pub record IsSound (h : EventHub) : Type 0 where
  pub single : (k : ℕ) → count k (channels h.subscribers) + count k h.closed ≤ 1
  pub unused : (k : ℕ) → h.fresh ≤ k → count k (channels h.subscribers) + count k h.closed ≡ 0
  pub bounded : All (λ (s : Subscription). s.buffered ≤ capacity) h.subscribers

without-count :
    (id : String) (c k : ℕ) (ss : List Subscription)
    → count k (channels (without id c ss)) ≤ count k (channels ss)
unfolding without
without-count id c k [] = omega arith
without-count id c k (s ∷ ss) = ground (arith, without-count id c k ss)

without-any :
    (id : String) (c : ℕ) (ss : List Subscription)
    → any (is_entry id c) ss ≡ true
    → suc (count c (channels (without id c ss))) ≤ count c (channels ss)
unfolding without
without-any id c [] h = ground arith
without-any id c (s ∷ ss) h =
    let rest : any (is_entry id c) ss ≡ true
        → suc (count c (channels (without id c ss))) ≤ count c (channels ss) =
      without-any id c ss in
    ground (arith, rest, without-count id c c ss)

without-All :
    (id : String) (c : ℕ) (ss : List Subscription)
    → All (λ (s : Subscription). s.buffered ≤ capacity) ss
    → All (λ (s : Subscription). s.buffered ≤ capacity) (without id c ss)
unfolding without
without-All id c [] h = tt
without-All id c (s ∷ ss) (h, hs) = ground (arith, h, without-All id c ss hs)

subscribe-IsSound : (id : String) (h : EventHub) → IsSound h → IsSound (subscribe id h)
unfolding subscribe
subscribe-IsSound id h v = record {
  single = λ k. ground (arith, v.single k, v.unused k);
  unused = λ k n. ground (arith, v.unused k, n);
  bounded = (omega arith, v.bounded);
}

unsubscribe-IsSound :
    (id : String) (c : ℕ) (h : EventHub) → IsSound h → IsSound (unsubscribe id c h)
unfolding unsubscribe
unsubscribe-IsSound id c h v =
    if_cases IsSound (any (is_entry id c) h.subscribers)
      (λ e. record {
        single = λ k. ground (
          arith,
          v.single k,
          without-count id c k h.subscribers,
          without-any id c h.subscribers e,
        );
        unused = λ k n. ground (
          arith,
          v.unused k n,
          v.unused c,
          without-count id c k h.subscribers,
          without-any id c h.subscribers e,
        );
        bounded = without-All id c h.subscribers v.bounded;
      })
      (λ _. v)

close-IsSound : (h : EventHub) → IsSound h → IsSound (close h)
unfolding close
close-IsSound h v = record {
  single = λ k. omega (arith, v.single k, count-append k (channels h.subscribers) h.closed);
  unused = λ k n. omega (arith, v.unused k n, count-append k (channels h.subscribers) h.closed);
  bounded = tt;
}

-- A change of the buffers that keeps the channels and the capacity.
module _ (f : Subscription → Subscription)
    (channel : (s : Subscription) → (f s).channel ≡ s.channel)
    (bounds : (s : Subscription) → s.buffered ≤ capacity → (f s).buffered ≤ capacity) where
  channels-map : (ss : List Subscription) → channels (map f ss) ≡ channels ss
  channels-map [] = refl
  channels-map (s ∷ ss) = cc (channel s, channels-map ss)

  map-All :
      (ss : List Subscription)
      → All (λ (s : Subscription). s.buffered ≤ capacity) ss
      → All (λ (s : Subscription). s.buffered ≤ capacity) (map f ss)
  map-All [] h = tt
  map-All (s ∷ ss) (h, hs) = (bounds s h, map-All ss hs)

  map-IsSound :
      (h : EventHub) → IsSound h → IsSound (record h { subscribers = map f h.subscribers })
  map-IsSound h v = record {
    single = λ k.
        subst (λ cs. count k cs + count k h.closed ≤ 1) (sym (channels-map h.subscribers))
          (v.single k);
    unused = λ k n.
        subst (λ cs. count k cs + count k h.closed ≡ 0) (sym (channels-map h.subscribers))
          (v.unused k n);
    bounded = map-All h.subscribers v.bounded;
  }

step-IsSound : (o : Operation) (h : EventHub) → IsSound h → IsSound (step o h)
unfolding step publish receive
step-IsSound (subscribing id) h v = subscribe-IsSound id h v
step-IsSound (publishing id) h v =
    map-IsSound (deliver id) (λ s. ground arith) (λ s b. ground arith) h v
step-IsSound (unsubscribing id c) h v = unsubscribe-IsSound id c h v
step-IsSound (receiving c) h v =
    map-IsSound (take_one c) (λ s. ground arith) (λ s b. ground arith) h v
step-IsSound closing h v = close-IsSound h v

keeps-IsSound : (os : List Operation) (h : EventHub) → IsSound h → IsSound (run_hub os h)
unfolding run_hub
keeps-IsSound [] h v = v
keeps-IsSound (o ∷ os) h v = keeps-IsSound os (step o h) (step-IsSound o h v)

-- After any sequence of operations on a new hub: each channel is subscribed at most once or closed
-- at most once and never both, so that no channel is closed twice and no event is sent on a closed
-- channel; a channel that was not made yet is neither; and no buffer holds more than 32 events.
pub run_hub-IsSound : (os : List Operation) → IsSound (run_hub os new_event_hub)
run_hub-IsSound os =
    keeps-IsSound os new_event_hub
      (record { single = λ k. omega arith; unused = λ k n. refl; bounded = tt })
