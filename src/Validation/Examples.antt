-- ===== src/Validation/Examples.antt =====
-- The theorems on the validation engine at a concrete check.
use restoreguard.Common.{◌≡◌, refl, ◌↔◌, true, false, none, inr, [], arith}
use restoreguard.Common.Int.{pos}
use restoreguard.Domain.Recovery.{passed}
use restoreguard.Validation.{
  http_health, ValidationCheck, loopback, Surroundings, run_check, perform, http_get,
}
use restoreguard.Validation.Outcomes.{Meets, run_check_iff}

abbrev healthy : Surroundings
healthy = record {
  max_file_bytes = 100;
  done = false;
  stat = λ path. inr 5;
  open_error = λ path. none;
  content = λ path. [];
  copy_error = none;
  sha256_hex = λ bytes. bytes;
  parse_url = λ url. inr loopback;
  respond = λ url. inr 204;
}

abbrev health_check : ValidationCheck
health_check = record {
  type = http_health;
  path = "";
  expected_sha256 = [];
  min_bytes = pos 0;
  url = "http://127.0.0.1/";
}

run_check_iff_example :
    ((run_check healthy health_check).0 ≡ passed)
    ↔ ((false ≡ false) × Meets healthy (omega arith) health_check http_health)
run_check_iff_example = run_check_iff healthy (omega arith) health_check

health_check-sent : (run_check healthy health_check).1 ≡ true
unfolding run_check perform http_get
health_check-sent = refl
