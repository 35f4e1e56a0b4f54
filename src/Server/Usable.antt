-- ===== src/Server/Usable.antt =====
-- What a configuration that LoadConfig accepts has (backend/internal/platform/config.go).
use Prim.Native.String.{len}
use restoreguard.Common.{
  ◌≤◌, ◌≡◌, subst, ◌≢◌, inr, Option, none, some, str_eq, eq_iff, ltb, if_ne, arith,
}
use restoreguard.Common.Int.{ℤ, pos, ◌≤ℤ◌}
use restoreguard.Server.Config.{Config, Environment, config_with, bad_workers, checked, config_of}

-- The conditions on a configuration that LoadConfig accepts.
pub record IsUsable (c : Config) : Type 0 where
  pub database : c.database_url ≢ ""
  pub secret : 32 ≤ len c.session_secret
  pub some_workers : pos 1 ≤ℤ c.max_concurrent_drills
  pub few_workers : c.max_concurrent_drills ≤ℤ pos 20

checked-IsUsable : (c d : Config) → checked c ≡ inr d → (c ≡ d) × IsUsable c
unfolding checked
checked-IsUsable c d h =
    let (url, k) = if_ne (str_eq c.database_url "") (λ e. cc e) h in
    let (long, l) = if_ne (ltb (len c.session_secret) 32) (λ e. cc e) k in
    let (bounded, m) = if_ne (bad_workers c) (λ e. cc e) l in
    (
      cc m,
      record {
        database = λ e. ground (arith, url, e, eq_iff c.database_url "");
        secret = ground (arith, long);
        some_workers = ground (arith, bounded);
        few_workers = ground (arith, bounded);
      },
    )

pub config_of-IsUsable :
    (e : Environment) (t : Option ℤ) (c : Config) → config_of e t ≡ inr c → IsUsable c
config_of-IsUsable e none c h = cc h
config_of-IsUsable e (some t) c h =
    let (same, usable) = checked-IsUsable (config_with e t) c h in subst IsUsable same usable
