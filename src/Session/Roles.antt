-- ===== src/Session/Roles.antt =====
-- The shipped roles after `ensureSystemRoles`.
use text.Mathlib.TextEquality.{eq_iff}
use proxora.Common.{
  String, List, [], ◌∷◌, Bool, true, false, Option, none, some, ◌≡◌, refl, arith, string_eq, ◌==◌,
  if◌then◌else◌,
}
use proxora.Rbac.Presets.{RolePreset, role_presets}
use proxora.Database.{RoleRow, find_first}
use proxora.Session.{Server, upsert_role, sync_system_roles, ensure_system_roles}

-- What counts of a role: its permissions, and whether it is protected.
abbrev pub grant_of : Option RoleRow → Option (List String × Bool)
grant_of none = none
grant_of (some role) = some (role.permissions, role.is_system)

abbrev role_at : String → List RoleRow → Option (List String × Bool)
role_at slug roles = grant_of (find_first (λ r. r.slug == slug) roles)

role_at-upsert_role :
    (new_id : String → String) (s slug : String) (preset : RolePreset) (roles : List RoleRow)
    → role_at s (upsert_role new_id slug preset roles)
      ≡ (if slug == s then some (preset.permissions, true) else role_at s roles)
unfolding upsert_role find_first
role_at-upsert_role new_id s slug preset [] = ground arith
role_at-upsert_role new_id s slug preset (r ∷ roles) = ground (
  arith,
  role_at-upsert_role new_id s slug preset roles,
  eq_iff r.slug slug,
  eq_iff r.slug s,
  eq_iff slug s,
)

-- The preset of a slug; of several the last, which is the one written last.
abbrev pub preset_at : String → List (String × RolePreset) → Option (List String × Bool)
preset_at s [] = none
preset_at s ((slug, preset) ∷ presets) = elim (preset_at s presets) [
  | some later ↦ some later
  | none ↦ if slug == s then some (preset.permissions, true) else none
]

abbrev or_stored {ℓ} : {A : Type ℓ} → Option A → Option A → Option A
or_stored none stored = stored
or_stored (some a) stored = some a

role_at-sync_system_roles :
    (new_id : String → String) (s : String) (presets : List (String × RolePreset))
    (roles : List RoleRow)
    → role_at s (sync_system_roles new_id presets roles)
      ≡ or_stored (preset_at s presets) (role_at s roles)
unfolding sync_system_roles
role_at-sync_system_roles new_id s [] roles = refl
role_at-sync_system_roles new_id s ((slug, preset) ∷ presets) roles = ground (
  arith,
  role_at-sync_system_roles new_id s presets (upsert_role new_id slug preset roles),
  role_at-upsert_role new_id s slug preset roles,
)

-- What a slug has to show after the synchronisation: a shipped one the shipped permissions and the
-- protection, any other the row that it had, with its name and description.
unfoldable pub IsSynchronised :
    Option (List String × Bool) → (before after : Option RoleRow) → Type 0
IsSynchronised none before after = after ≡ before
IsSynchronised (some grant) before after = grant_of after ≡ some grant

row_at-upsert_role :
    (new_id : String → String) (s slug : String) (preset : RolePreset) (roles : List RoleRow)
    → (slug == s) ≡ false
    → find_first (λ r. r.slug == s) (upsert_role new_id slug preset roles)
      ≡ find_first (λ r. r.slug == s) roles
unfolding upsert_role find_first
row_at-upsert_role new_id s slug preset [] other = ground arith
row_at-upsert_role new_id s slug preset (r ∷ roles) other = ground (
  arith,
  row_at-upsert_role new_id s slug preset roles,
  eq_iff r.slug slug,
  eq_iff r.slug s,
  eq_iff slug s,
)

row_at-sync_system_roles :
    (new_id : String → String) (s : String) (presets : List (String × RolePreset))
    (roles : List RoleRow)
    → preset_at s presets ≡ none
    → find_first (λ r. r.slug == s) (sync_system_roles new_id presets roles)
      ≡ find_first (λ r. r.slug == s) roles
unfolding sync_system_roles
row_at-sync_system_roles new_id s [] roles h = refl
row_at-sync_system_roles new_id s ((slug, preset) ∷ presets) roles h = ground (
  arith,
  row_at-sync_system_roles new_id s presets (upsert_role new_id slug preset roles),
  row_at-upsert_role new_id s slug preset roles,
)

synchronised :
    (shipped : Option (List String × Bool)) (before after : Option RoleRow)
    → (shipped ≡ none → after ≡ before)
    → grant_of after ≡ or_stored shipped (grant_of before)
    → IsSynchronised shipped before after
unfolding IsSynchronised
synchronised none before after same granted = same refl
synchronised (some grant) before after same granted = granted

-- Once the process has synchronised the roles, each shipped role has the shipped permissions and is
-- a system role, whatever the database held; of every other slug the row is as it was.
pub role_at-ensure_system_roles :
    (new_id : String → String) (server : Server) (slug : String)
    → server.started ≡ false
    → IsSynchronised
        (preset_at slug role_presets)
        (find_first (λ r. r.slug == slug) server.db.roles)
        (find_first (λ r. r.slug == slug) (ensure_system_roles new_id server).db.roles)
unfolding ensure_system_roles
role_at-ensure_system_roles new_id server slug fresh = rw fresh (
    synchronised (preset_at slug role_presets) _ _
      (row_at-sync_system_roles new_id slug role_presets server.db.roles)
      (role_at-sync_system_roles new_id slug role_presets server.db.roles))
