-- ===== src/Access/Roles.antt =====
-- The permissions of the roles (backend/internal/security/rbac.go).
use restoreguard.Common.{Bool, ◌||◌, List, [], ◌∷◌, String, str_eq, any, if◌then◌else◌}

-- The table of permissions; a role that is not in it has none.
unfoldable pub role_permissions : String → List String
role_permissions role =
    if str_eq role "OWNER"
    then "*" ∷ []
    else if str_eq role "ADMIN"
    then "*" ∷ []
    else if str_eq role "RECOVERY_ENGINEER"
    then ("backup_source.read" ∷ "backup_source.manage" ∷ "recovery_policy.read"
        ∷ "recovery_policy.manage" ∷ "drill.read" ∷ "drill.run" ∷ "evidence.read" ∷ "report.export"
        ∷ [])
    else if str_eq role "OPERATOR"
    then ("backup_source.read" ∷ "recovery_policy.read" ∷ "drill.read" ∷ "drill.run"
        ∷ "evidence.read" ∷ [])
    else if str_eq role "AUDITOR"
    then ("backup_source.read" ∷ "recovery_policy.read" ∷ "drill.read" ∷ "evidence.read"
        ∷ "report.export" ∷ "audit.read" ∷ [])
    else if str_eq role "VIEWER"
    then "backup_source.read" ∷ "recovery_policy.read" ∷ "drill.read" ∷ "evidence.read" ∷ []
    else []

abbrev pub has : List String → String → Bool
has permissions permission = any (λ p. str_eq p permission) permissions

unfoldable pub grants : String → String → Bool
unfolding role_permissions
grants permission role = has (role_permissions role) "*" || has (role_permissions role) permission

unfoldable pub allowed : List String → String → Bool
unfolding grants
allowed roles permission = any (grants permission) roles
