-- ===== src/Docker/Admission.antt =====
-- Which specifications of a sandbox Create takes (backend/internal/drill/docker.go: safeIdentifier,
-- Create).
use Prim.Native.Char.{Char, code}
use restoreguard.Common.{ℕ, ◌≤◌, ◌≡◌, refl, ◌↔◌, ◌⊎◌, true, false, String, arith}
use restoreguard.Common.Int.{pos, ◌≤ℤ◌}
use restoreguard.Docker.Names.{safe_identifier, all_safe, is_safe_char}
use restoreguard.Docker.Executor.{SandboxSpec, is_valid}

-- A digit, a letter, an underscore or a dash.
abbrev pub IsSafeCode : ℕ → Type 0
IsSafeCode c =
    ((48 ≤ c) × (c ≤ 57))
    ⊎ (((65 ≤ c) × (c ≤ 90)) ⊎ (((97 ≤ c) × (c ≤ 122)) ⊎ ((c ≡ 95) ⊎ (c ≡ 45))))

abbrev pub AllSafe : String → Type 0
AllSafe String.[] = Unit {0}
AllSafe (String.◌∷◌ c cs) = IsSafeCode (code c) × AllSafe cs

abbrev pub IsIdentifier : String → Type 0
IsIdentifier String.[] = ⊥
IsIdentifier (String.◌∷◌ c cs) = IsSafeCode (code c) × AllSafe cs

-- An identifier of safe characters, more than no and at most four processors, and from 128 MiB to
-- 8 GiB of memory.
pub record IsSound (spec : SandboxSpec) : Type 0 where
  pub identified : IsIdentifier spec.drill_id
  pub some_cpus : spec.cpus.not_positive ≡ false
  pub few_cpus : spec.cpus.above_four ≡ false
  pub enough_memory : pos 134217728 ≤ℤ spec.memory_bytes
  pub little_memory : spec.memory_bytes ≤ℤ pos 8589934592

safe_char_iff : (c : Char) → (is_safe_char c ≡ true) ↔ IsSafeCode (code c)
safe_char_iff c = ground arith

all_safe_iff : (s : String) → (all_safe s ≡ true) ↔ AllSafe s
unfolding all_safe
all_safe_iff String.[] = (λ _. tt, λ _. refl)
all_safe_iff (String.◌∷◌ c cs) = ground (arith, safe_char_iff c, all_safe_iff cs)

safe_identifier_iff : (s : String) → (safe_identifier s ≡ true) ↔ IsIdentifier s
unfolding safe_identifier
safe_identifier_iff String.[] = (λ h. cc h, λ h. elim h [ ])
safe_identifier_iff (String.◌∷◌ c cs) = ground (arith, safe_char_iff c, all_safe_iff cs)

pub is_valid-IsSound : (spec : SandboxSpec) → is_valid spec ≡ true → IsSound spec
is_valid-IsSound spec h = record {
  identified = (safe_identifier_iff spec.drill_id).0 (ground (arith, h));
  some_cpus = ground (arith, h);
  few_cpus = ground (arith, h);
  enough_memory = ground (arith, h);
  little_memory = ground (arith, h);
}

pub IsSound-is_valid : (spec : SandboxSpec) → is_valid spec ≡ false → IsSound spec → ⊥
IsSound-is_valid spec h s = ground (
  arith,
  h,
  (safe_identifier_iff spec.drill_id).1 s.identified,
  s.some_cpus,
  s.few_cpus,
  s.enough_memory,
  s.little_memory,
)
