-- ===== src/Server/Serving.antt =====
-- When the program listens, and how it ends.
use mathlib.Core.List.{append_assoc, append-nil}
use restoreguard.Common.{
  ◌≡◌, refl, sym, ap, ◌∙◌, ◌≢◌, ◌⊎◌, inl, inr, Bool, true, false, ◌&&◌, ◌||◌, not, List, [], ◌∷◌,
  ◌++◌, str_eq, if◌then◌else◌, if_cases, if_either, All,
}
use restoreguard.Common.Int.{pos, leb_ℤ}
use restoreguard.Server.Config.{Config, ConfigError, load_config}
use restoreguard.Server.Life.{
  Stop, signalled, server_failed, server_closed, World, Event, migrated, bootstrapped,
  storage_checked, scheduler_started, listening, scheduler_cancelled, server_shut, workers_closed,
  hub_closed, pool_closed, workers_started, Outcome, after, at_end, shut_down, until_stop, serving,
  with_storage, open_storage, connected, with_config, run_server, close_workers, shut_server,
  check_storage, new_storage, ensure_bucket, migrate, bootstrap, read_master_key, connect_database,
}
use restoreguard.Server.Usable.{IsUsable, config_of-IsUsable}

-- No event is the one of listening.
abbrev pub IsQuiet : List Event → Type 0
IsQuiet es = All (λ (e : Event). e ≢ listening) es

-- The events from the start to the service.
abbrev pub started : Config → List Event
started c =
    migrated
    ∷ bootstrapped
    ∷ storage_checked
    ∷ workers_started c.max_concurrent_drills
    ∷ scheduler_started
    ∷ listening
    ∷ []

-- The ways in which the service ends: the server failed, its shutdown failed, the end of the workers
-- failed, or nothing failed.
pub data Ending : Bool → List Event → Type 0 where
  broken : Ending true (scheduler_cancelled ∷ [])
  not_shut : Ending true (scheduler_cancelled ∷ [])
  not_closed : Ending true (scheduler_cancelled ∷ server_shut ∷ [])
  orderly : Ending false (scheduler_cancelled ∷ server_shut ∷ workers_closed ∷ [])

shut_down-Ending : (w : World) → Ending (shut_down w).0 (shut_down w).1
unfolding shut_down
shut_down-Ending w = cases (w.fails shut_server) (w.fails close_workers)
  where
    outcome_of : Bool → Bool → Outcome
    outcome_of b d = after scheduler_cancelled (
        if b
        then (true, [])
        else after server_shut (if d then (true, []) else (false, workers_closed ∷ [])))

    cases : (b d : Bool) → Ending (outcome_of b d).0 (outcome_of b d).1
    cases true d = not_shut
    cases false true = not_closed
    cases false false = orderly

until_stop-Ending : (w : World) (s : Stop) → Ending (until_stop w s).0 (until_stop w s).1
unfolding until_stop
until_stop-Ending w signalled = shut_down-Ending w
until_stop-Ending w server_failed = broken
until_stop-Ending w server_closed = shut_down-Ending w

-- No event of listening and an error, or the events of a service under the condition.
abbrev Result : Type 0 → List Event → List Event → Outcome → Type 0
Result Q before closers o =
    ((o.0 ≡ true) × IsQuiet o.1)
    ⊎ (Q × ((es : List Event) × Ending o.0 es × (o.1 ≡ before ++ (es ++ closers))))

append-IsQuiet : (es : List Event) (e : Event) → e ≢ listening → IsQuiet es → IsQuiet (es ++ e ∷ [])
append-IsQuiet [] e n h = (n, tt)
append-IsQuiet (x ∷ xs) e n (h, hs) = (h, append-IsQuiet xs e n hs)

module _ {Q : Type 0} (before closers : List Event) (e : Event) (n : e ≢ listening) where
  Result-after :
      (o : Outcome) → Result Q before closers o → Result Q (e ∷ before) closers (after e o)
  Result-after o (inl (failed, quiet)) = inl (failed, (n, quiet))
  Result-after o (inr (q, (es, ending, same))) = inr (q, (es, ending, ap (λ l. e ∷ l) same))

  Result-at_end :
      (o : Outcome) → Result Q before closers o → Result Q before (closers ++ e ∷ []) (at_end e o)
  Result-at_end o (inl (failed, quiet)) = inl (failed, append-IsQuiet o.1 e n quiet)
  Result-at_end o (inr (q, (es, ending, same))) = inr (
    q,
    (
      es,
      ending,
      ap (λ l. l ++ e ∷ []) same
          ∙ append_assoc before (es ++ closers) (e ∷ [])
          ∙ ap (λ l. before ++ l) (append_assoc es closers (e ∷ [])),
    ),
  )

module _ (w : World) (c : Config) where
  abbrev service : List Event
  service = workers_started c.max_concurrent_drills ∷ scheduler_started ∷ listening ∷ []

  serving-Result : Result (Unit {0}) service [] (serving w c)
  unfolding serving
  serving-Result = inr (
    tt,
    (
      (until_stop w w.stop).1,
      until_stop-Ending w w.stop,
      ap (λ l. service ++ l) (sym (append-nil (until_stop w w.stop).1)),
    ),
  )

  abbrev HasLimit : Type 0
  HasLimit = leb_ℤ c.max_artifact_bytes (pos 0) ≡ false

  with_storage-Result :
      Result (Unit {0}) (storage_checked ∷ service) (hub_closed ∷ []) (with_storage w c)
  unfolding with_storage
  with_storage-Result =
      if_either (Result (Unit {0}) (storage_checked ∷ service) (hub_closed ∷ []))
        (w.fails check_storage) (inl (refl, tt))
        (Result-after service (hub_closed ∷ []) storage_checked (λ e. cc e) _
          (Result-at_end service [] hub_closed (λ e. cc e) (serving w c) serving-Result))

  with_limit :
      (o : Outcome)
      → HasLimit
      → Result (Unit {0}) (storage_checked ∷ service) (hub_closed ∷ []) o
      → Result HasLimit (storage_checked ∷ service) (hub_closed ∷ []) o
  with_limit o h (inl r) = inl r
  with_limit o h (inr (q, r)) = inr (h, r)

  open_storage-Result :
      Result HasLimit (storage_checked ∷ service) (hub_closed ∷ []) (open_storage w c)
  unfolding open_storage
  open_storage-Result =
      if_cases (Result HasLimit (storage_checked ∷ service) (hub_closed ∷ []))
        (leb_ℤ c.max_artifact_bytes (pos 0) || w.fails new_storage) (λ _. (inl (refl, tt)))
        (λ limited.
          if_either (Result HasLimit (storage_checked ∷ service) (hub_closed ∷ []))
            (str_eq c.object_storage_type "s3" && w.fails ensure_bucket) (inl (refl, tt))
            (with_limit (with_storage w c) (or_left _ _ limited) with_storage-Result))
    where
      or_left : (x y : Bool) → (x || y) ≡ false → x ≡ false
      or_left true y h = h
      or_left false y h = refl

  connected-Result : Result HasLimit (started c) (hub_closed ∷ []) (connected w c)
  unfolding connected
  connected-Result =
      if_either (Result HasLimit (started c) (hub_closed ∷ [])) (w.fails migrate) (inl (refl, tt)) (
        Result-after (bootstrapped ∷ storage_checked ∷ service) (hub_closed ∷ []) migrated
          (λ e. cc e) _
          (if_either (Result HasLimit (bootstrapped ∷ storage_checked ∷ service) (hub_closed ∷ []))
            (w.fails bootstrap) (inl (refl, tt))
            (Result-after (storage_checked ∷ service) (hub_closed ∷ []) bootstrapped (λ e. cc e) _
              (if_either (Result HasLimit (storage_checked ∷ service) (hub_closed ∷ []))
                (not (str_eq c.master_key "") && w.fails read_master_key) (inl (refl, tt))
                open_storage-Result))))

  configured-Result :
      Result HasLimit (started c) (hub_closed ∷ pool_closed ∷ []) (with_config w (inr c))
  unfolding with_config
  configured-Result =
      if_either (Result HasLimit (started c) (hub_closed ∷ pool_closed ∷ []))
        (w.fails connect_database) (inl (refl, tt))
        (Result-at_end (started c) (hub_closed ∷ []) pool_closed (λ e. cc e) (connected w c)
          connected-Result)

-- A run that served: its configuration, and its events.
pub record HasServed (w : World) (o : Outcome) : Type 0 where
  pub config : Config
  pub loaded : load_config w.environment ≡ inr config
  pub usable : IsUsable config
  pub limited : HasLimit w config
  pub last : List Event
  pub ending : Ending o.0 last
  pub events : o.1 ≡ started config ++ (last ++ hub_closed ∷ pool_closed ∷ [])

loaded-HasServed :
    (w : World) (l : ConfigError ⊎ Config)
    → load_config w.environment ≡ l
    → (((with_config w l).0 ≡ true) × IsQuiet (with_config w l).1) ⊎ HasServed w (with_config w l)
unfolding with_config load_config
loaded-HasServed w (inl e) h = inl (refl, tt)
loaded-HasServed w (inr c) h = elim (configured-Result w c) [
  | inl quiet ↦ inl quiet
  | inr (limit, (es, ending, same)) ↦ inr (record {
    config = c;
    loaded = h;
    usable = config_of-IsUsable w.environment _ c h;
    limited = limit;
    last = es;
    ending = ending;
    events = same;
  })
]

-- A run of the program either returns an error without having listened, or listens after, in this
-- order, the migration, the bootstrap, the check of the storage and the start of the workers and the
-- scheduler, under a configuration with a database, a session secret of at least 32 bytes, from 1 to
-- 20 workers and a positive limit on artifacts; it then ends by one of the four endings, without an
-- error only if the scheduler was cancelled, the server shut and the workers closed; and the hub and
-- then the database are closed on all of these.
pub run_server-HasServed :
    (w : World)
    → (((run_server w).0 ≡ true) × IsQuiet (run_server w).1) ⊎ HasServed w (run_server w)
unfolding run_server
run_server-HasServed w = loaded-HasServed w (load_config w.environment) refl
