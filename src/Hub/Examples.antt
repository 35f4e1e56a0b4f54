-- ===== src/Hub/Examples.antt =====
-- The theorem on the hub at a concrete sequence of operations.
use restoreguard.Common.{List, [], ◌∷◌}
use restoreguard.Hub.{
  new_event_hub, Operation, subscribing, publishing, unsubscribing, closing, run_hub,
}
use restoreguard.Hub.Channels.{IsSound, run_hub-IsSound}

-- The second reader leaves twice, and the hub is closed with the first one on it.
abbrev session : List Operation
session =
    subscribing "d1"
    ∷ subscribing "d1"
    ∷ publishing "d1"
    ∷ unsubscribing "d1" 1
    ∷ unsubscribing "d1" 1
    ∷ closing
    ∷ unsubscribing "d1" 0
    ∷ []

run_hub-IsSound_example : IsSound (run_hub session new_event_hub)
run_hub-IsSound_example = run_hub-IsSound session
