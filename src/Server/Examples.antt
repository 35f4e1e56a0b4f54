-- ===== src/Server/Examples.antt =====
-- The theorem on the run of the program, in a world where nothing fails.
use restoreguard.Common.{◌≡◌, ◌⊎◌, true, false, Option, none, some, String, str_eq, if◌then◌else◌}
use restoreguard.Common.Int.{ℤ, pos}
use restoreguard.Server.Life.{World, signalled, run_server}
use restoreguard.Server.Serving.{HasServed, IsQuiet, run_server-HasServed}

abbrev variables : String → String
variables name =
    if str_eq name "RESTOREGUARD_DATABASE_URL"
    then "postgres://localhost/restoreguard"
    else if str_eq name "RESTOREGUARD_SESSION_SECRET"
    then "0123456789abcdef0123456789abcdef"
    else ""

abbrev half_an_hour : String → Option ℤ
half_an_hour text = some (pos 1800)

abbrev world : World
world = record {
  environment = record {
    getenv = variables;
    parse_bool = λ text. none;
    parse_int = λ text. none;
    parse_duration = half_an_hour;
    trim = λ text. text;
    lower = λ text. text;
  };
  fails = λ call. false;
  stop = signalled;
}

run_server-HasServed_example :
    (((run_server world).0 ≡ true) × IsQuiet (run_server world).1)
    ⊎ HasServed world (run_server world)
run_server-HasServed_example = run_server-HasServed world
