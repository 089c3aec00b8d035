-- ===== src/Users/SystemRoles.antt =====
-- System roles under the operations of the service.
use text.Mathlib.TextEquality.{eq_iff}
use proxora.Common.{
  String, List, [], ◌∷◌, ◌++◌, true, false, not, some, ◌≡◌, refl, arith, map, filter, string_eq,
  ◌==◌, if◌then◌else◌, Bool-cases, inl, inr, subst, sym,
}
use proxora.Database.{Database, RoleRow, find_first, find_role, delete_sessions}
use proxora.Database.Run.{and_then, found-keeps, require-keeps}
use proxora.Session.{destroy_user_sessions}
use proxora.Users.Accounts.Steps.{update_access-keeps, update_columns-cases}
use proxora.Users.Accounts.{
  CreateUserInput, UpdateUserInput, set_user, signed_out, ends_sessions, create_user, update_user,
  delete_user,
}
use proxora.Users.Roles.{
  CreateRoleInput, UpdateRoleInput, set_role, updated_role, create_role, update_role, delete_role,
}
use proxora.Users.Operations.{
  Operation, creating_user, updating_user, deleting_user, creating_role, updating_role,
  deleting_role, after, after_all,
}

-- The id finds a system role with the slug.
unfoldable pub IsSystemRole : (id slug : String) → List RoleRow → Type 0
IsSystemRole id slug roles =
    (role : RoleRow) × (find_first (λ r. r.id == id) roles ≡ some role)
    × (role.slug ≡ slug)
    × (role.is_system ≡ true)

find_first-snoc :
    (id : String) (roles : List RoleRow) (new role : RoleRow)
    → find_first (λ r. r.id == id) roles ≡ some role
    → find_first (λ r. r.id == id) (roles ++ new ∷ []) ≡ some role
unfolding find_first
find_first-snoc id [] new role h = cc
find_first-snoc id (r ∷ roles) new role h = ground (arith, find_first-snoc id roles new role)

find_first-kept :
    (id other : String) (roles : List RoleRow) (role : RoleRow)
    → (other == id) ≡ false
    → find_first (λ r. r.id == id) roles ≡ some role
    → find_first (λ r. r.id == id) (filter (λ r. not (r.id == other)) roles) ≡ some role
unfolding find_first
find_first-kept id other [] role differ h = cc
find_first-kept id other (r ∷ roles) role differ h =
    ground (
      arith,
      find_first-kept id other roles role,
      eq_iff r.id id,
      eq_iff r.id other,
      eq_iff other id,
    )

-- An update leaves slug and kind of a role as they are.
updated-IsSystemRole :
    (id slug other : String) (input : UpdateRoleInput) (roles : List RoleRow)
    → IsSystemRole id slug roles
    → IsSystemRole id slug (map (λ r. if r.id == other then updated_role input r else r) roles)
unfolding IsSystemRole find_first updated_role
updated-IsSystemRole id slug other input [] h = cc h.1
updated-IsSystemRole id slug other input (r ∷ roles) h = elim (Bool-cases (r.id == id)) [
  | inl t ↦
      let is_role : r ≡ h.0 = ground (arith, h.1) in
      let slug_is = subst (λ x. x.slug ≡ slug) (sym is_role) h.2 in
      let system_is = subst (λ x. x.is_system ≡ true) (sym is_role) h.3 in
      elim (Bool-cases (r.id == other)) [
        | inl o ↦ rw o (rw t (updated_role input r, refl, slug_is, system_is))
        | inr n ↦ rw n (rw t (r, refl, slug_is, system_is))
      ]
  | inr f ↦
      let rest = updated-IsSystemRole id slug other input roles (h.0, (rw f at h.1), h.2, h.3) in
      elim (Bool-cases (r.id == other)) [ inl o ↦ rw o (rw f rest) | inr n ↦ rw n (rw f rest) ]
]

abbrev Stands : (id slug : String) → Database → Type 0
Stands id slug db = IsSystemRole id slug db.roles

module _ (id slug : String) where
  create_user-Stands :
      (hash_password : String → String) (new_id : String) (input : CreateUserInput) (db : Database)
      → Stands id slug db
      → Stands id slug (create_user hash_password new_id input db).1
  unfolding create_user
  create_user-Stands hash_password new_id input db h =
      require-keeps (Stands id slug) _ _ _ _ h (λ _.
        found-keeps (Stands id slug) _ _ _ _ h
          (λ _ _. require-keeps (Stands id slug) _ _ _ _ h (λ _. h)))

  signed_out-Stands :
      (other : String) (input : UpdateUserInput) (db : Database)
      → Stands id slug db
      → Stands id slug (signed_out other input db)
  unfolding signed_out destroy_user_sessions delete_sessions
  signed_out-Stands other input db h = elim (Bool-cases (ends_sessions input)) [
    | inl ends ↦ rw ends h
    | inr stays ↦ rw stays h
  ]

  update_user-Stands :
      (hash_password : String → String) (other : String) (input : UpdateUserInput) (db : Database)
      → Stands id slug db
      → Stands id slug (update_user hash_password other input db).1
  unfolding update_user and_then set_user
  update_user-Stands hash_password other input db h =
      found-keeps (Stands id slug) _ _ _ _ h (λ user _.
        elim (update_columns-cases hash_password other input user db) [
          | inl refused ↦ rw refused h
          | inr passed ↦ rw passed.1 (
              update_access-keeps (Stands id slug) other (λ change now same k. k) input _
                (signed_out-Stands other input _ h))
        ])

  delete_user-Stands :
      (other actor_id : String) (db : Database)
      → Stands id slug db
      → Stands id slug (delete_user other actor_id db).1
  unfolding delete_user delete_sessions
  delete_user-Stands other actor_id db h =
      require-keeps (Stands id slug) _ _ _ _ h
        (λ _. found-keeps (Stands id slug) _ _ _ _ h (λ _ _. h))

  create_role-Stands :
      (new_id : String) (input : CreateRoleInput) (db : Database)
      → Stands id slug db
      → Stands id slug (create_role new_id input db).1
  unfolding create_role IsSystemRole
  create_role-Stands new_id input db h =
      require-keeps (Stands id slug) _ _ _ _ h
        (λ _. (h.0, find_first-snoc id db.roles _ h.0 h.1, h.2, h.3))

  update_role-Stands :
      (other : String) (input : UpdateRoleInput) (db : Database)
      → Stands id slug db
      → Stands id slug (update_role other input db).1
  unfolding update_role set_role
  update_role-Stands other input db h = found-keeps (Stands id slug) _ _ _ _ h (λ role _.
      require-keeps (Stands id slug) _ _ _ _ h
        (λ _. updated-IsSystemRole id slug other input db.roles h))

  -- A role that may be deleted is not the system role.
  custom_differs :
      (other : String) (db : Database) (role : RoleRow)
      → Stands id slug db
      → find_role other db ≡ some role
      → not role.is_system ≡ true
      → (other == id) ≡ false
  unfolding IsSystemRole
  custom_differs other db role h is_role custom = elim (Bool-cases (other == id)) [
    | inl same ↦
        let found_id =
          subst (λ k. find_first (λ r. r.id == k) db.roles ≡ some role) ((eq_iff other id).0 same)
            is_role in
        let is_role : role ≡ h.0 = ground (arith, h.1) in
        let system = subst (λ r. r.is_system ≡ true) (sym is_role) h.3 in ground arith
    | inr differ ↦ differ
  ]

  delete_role-Stands :
      (other : String) (db : Database) → Stands id slug db → Stands id slug (delete_role other db).1
  unfolding delete_role IsSystemRole
  delete_role-Stands other db h = found-keeps (Stands id slug) _ _ _ _ h (λ role is_role.
      require-keeps (Stands id slug) _ _ _ _ h (λ custom.
        require-keeps (Stands id slug) _ _ _ _ h (λ _.
          let differ = custom_differs other db role h is_role custom in
          (h.0, find_first-kept id other db.roles h.0 differ h.1, h.2, h.3))))

  after-Stands :
      (hash_password : String → String) (operation : Operation) (db : Database)
      → Stands id slug db
      → Stands id slug (after hash_password operation db)
  unfolding after
  after-Stands hash_password (creating_user new_id input) db h =
      create_user-Stands hash_password new_id input db h
  after-Stands hash_password (updating_user other input) db h =
      update_user-Stands hash_password other input db h
  after-Stands hash_password (deleting_user other actor_id) db h =
      delete_user-Stands other actor_id db h
  after-Stands hash_password (creating_role new_id input) db h =
      create_role-Stands new_id input db h
  after-Stands hash_password (updating_role other input) db h = update_role-Stands other input db h
  after-Stands hash_password (deleting_role other) db h = delete_role-Stands other db h

  -- A system role stays, with its id and its slug and as a system role, through any sequence of
  -- operations on users and roles.
  pub after_all-IsSystemRole :
      (hash_password : String → String) (operations : List Operation) (db : Database)
      → IsSystemRole id slug db.roles
      → IsSystemRole id slug (after_all hash_password operations db).roles
  unfolding after_all
  after_all-IsSystemRole hash_password [] db h = h
  after_all-IsSystemRole hash_password (operation ∷ operations) db h =
      after_all-IsSystemRole hash_password operations (after hash_password operation db)
        (after-Stands hash_password operation db h)
