-- ===== src/Server/Life.antt =====
-- The run of the program, from its configuration to its end (backend/cmd/server/main.go: run). What
-- it does is written as a list of events, the deferred calls included.
use restoreguard.Common.{
  Bool, true, false, ◌&&◌, ◌||◌, not, ◌⊎◌, inl, inr, List, [], ◌∷◌, ◌++◌, str_eq, if◌then◌else◌,
}
use restoreguard.Common.Int.{ℤ, pos, leb_ℤ}
use restoreguard.Server.Config.{Config, ConfigError, Environment, load_config}

pub data Call : Type 0 where
  connect_database migrate bootstrap read_master_key new_storage ensure_bucket check_storage : Call
  shut_server close_workers : Call

-- What ends the service: a signal, or the end of the server with an error or without.
pub data Stop : Type 0 where
  signalled server_failed server_closed : Stop

pub record World : Type 0 where
  pub environment : Environment
  pub fails : Call → Bool
  pub stop : Stop

pub data Event : Type 0 where
  migrated bootstrapped storage_checked scheduler_started listening : Event
  scheduler_cancelled server_shut workers_closed hub_closed pool_closed : Event
  -- the number of workers
  workers_started : ℤ → Event

-- Whether an error is returned, and the events.
abbrev pub Outcome : Type 0
Outcome = Bool × List Event

abbrev pub after : Event → Outcome → Outcome
after e (failed, es) = (failed, e ∷ es)

-- A deferred call.
abbrev pub at_end : Event → Outcome → Outcome
at_end e (failed, es) = (failed, es ++ e ∷ [])

unfoldable pub shut_down : World → Outcome
shut_down w = after scheduler_cancelled (
    if w.fails shut_server
    then (true, [])
    else after server_shut
        (if w.fails close_workers then (true, []) else (false, workers_closed ∷ [])))

unfoldable pub until_stop : World → Stop → Outcome
unfolding shut_down
until_stop w signalled = shut_down w
until_stop w server_failed = after scheduler_cancelled (true, [])
until_stop w server_closed = shut_down w

unfoldable pub serving : World → Config → Outcome
unfolding until_stop
serving w c =
    after (workers_started c.max_concurrent_drills)
      (after scheduler_started (after listening (until_stop w w.stop)))

unfoldable pub with_storage : World → Config → Outcome
unfolding serving
with_storage w c =
    if w.fails check_storage
    then (true, [])
    else after storage_checked (at_end hub_closed (serving w c))

-- NewS3 and NewLocal refuse a limit that is not positive.
unfoldable pub open_storage : World → Config → Outcome
unfolding with_storage
open_storage w c =
    if leb_ℤ c.max_artifact_bytes (pos 0) || w.fails new_storage
    then (true, [])
    else if str_eq c.object_storage_type "s3" && w.fails ensure_bucket
    then (true, [])
    else with_storage w c

unfoldable pub connected : World → Config → Outcome
unfolding open_storage
connected w c =
    if w.fails migrate
    then (true, [])
    else after migrated (
        if w.fails bootstrap
        then (true, [])
        else after bootstrapped (
            if not (str_eq c.master_key "") && w.fails read_master_key
            then (true, [])
            else open_storage w c))

unfoldable pub with_config : World → ConfigError ⊎ Config → Outcome
unfolding connected
with_config w (inl e) = (true, [])
with_config w (inr c) =
    if w.fails connect_database then (true, []) else at_end pool_closed (connected w c)

unfoldable pub run_server : World → Outcome
unfolding with_config load_config
run_server w = with_config w (load_config w.environment)
