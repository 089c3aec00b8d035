-- ===== src/Users/Relations.antt =====
-- The relations between users, roles and sessions, and how the lists of their rows keep them.
use text.Mathlib.TextEquality.{eq_iff}
use proxora.Common.{
  String, List, [], ◌∷◌, ◌++◌, Bool, true, false, not, ◌≡◌, refl, arith, map, any, filter, All,
  any-append, string_eq, ◌==◌, if◌then◌else◌, Bool-cases, inl, inr, subst, sym, ◌∙◌,
}
use proxora.Database.{Database, UserRow, RoleRow, SessionRow, find_first}
use proxora.Users.{is_given}

-- Whether a row has the key.
abbrev pub has {ℓ} : {A : Type ℓ} → (A → String) → String → List A → Bool
has key k rows = any (λ r. key r == k) rows

abbrev pub HasRole : Database → UserRow → Type 0
HasRole db u = has (λ r. r.id) u.role_id db.roles ≡ true

abbrev pub HasUser : Database → SessionRow → Type 0
HasUser db s = has (λ u. u.id) s.user_id db.users ≡ true

-- Each user has a role, and each session a user.
unfoldable pub IsConsistent : Database → Type 0
IsConsistent db = All (HasRole db) db.users × All (HasUser db) db.sessions

module _ {ℓ} {A : Type ℓ} (key : A → String) where
  pub has-find_first :
      (k : String) (rows : List A) → is_given (find_first (λ r. key r == k) rows) ≡ has key k rows
  unfolding find_first
  has-find_first k [] = refl
  has-find_first k (r ∷ rows) = ground (arith, has-find_first k rows)

  pub has-change :
      (id k : String) (change : A → A) (rows : List A)
      → ((r : A) → key (change r) ≡ key r)
      → has key k (map (λ r. if key r == id then change r else r) rows) ≡ has key k rows
  has-change id k change [] same = refl
  has-change id k change (r ∷ rows) same = elim (Bool-cases (key r == id)) [
    | inl t ↦ rw t (rw (same r) (rw (has-change id k change rows same) refl))
    | inr f ↦ rw f (rw (has-change id k change rows same) refl)
  ]

  pub has-filter :
      (id k : String) (rows : List A)
      → (k == id) ≡ false
      → has key k (filter (λ r. not (key r == id)) rows) ≡ has key k rows
  has-filter id k [] differ = refl
  has-filter id k (r ∷ rows) differ =
      ground (arith, has-filter id k rows differ, eq_iff (key r) id, eq_iff (key r) k, eq_iff k id)

pub All-change :
    (db : Database) (id : String) (change : UserRow → UserRow) (users : List UserRow)
    → ((u : UserRow) → HasRole db u → HasRole db (change u))
    → All (HasRole db) users
    → All (HasRole db) (map (λ u. if u.id == id then change u else u) users)
All-change db id change [] good h = tt
All-change db id change (u ∷ users) good h = elim (Bool-cases (u.id == id)) [
  | inl t ↦ rw t (good u h.0, All-change db id change users good h.1)
  | inr f ↦ rw f (h.0, All-change db id change users good h.1)
]

pub same_role :
    (k l : String) (db : Database)
    → k ≡ l
    → has (λ r. r.id) l db.roles ≡ true
    → has (λ r. r.id) k db.roles ≡ true
same_role k l db same r = subst (λ m. has (λ r. r.id) m db.roles ≡ true) (sym same) r

pub All-snoc {ℓ κ} :
    {A : Type ℓ} (P : A → Type κ) (xs : List A) (x : A) → All P xs → P x → All P (xs ++ x ∷ [])
All-snoc P [] x h g = (g, tt)
All-snoc P (y ∷ xs) x h g = (h.0, All-snoc P xs x h.1 g)

pub has-snoc :
    {A : Type 0} (key : A → String) (k : String) (rows : List A) (row : A)
    → has key k rows ≡ true
    → has key k (rows ++ row ∷ []) ≡ true
has-snoc key k rows row h = ground (arith, any-append (λ r. key r == k) rows (row ∷ []))

pub delete_user-sessions :
    (id : String) (users : List UserRow) (sessions : List SessionRow)
    → All (λ s. has (λ u. u.id) s.user_id users ≡ true) sessions
    → All
        (λ s. has (λ u. u.id) s.user_id (filter (λ u. not (u.id == id)) users) ≡ true)
        (filter (λ s. not (s.user_id == id)) sessions)
delete_user-sessions id users [] h = tt
delete_user-sessions id users (s ∷ sessions) h = elim (Bool-cases (s.user_id == id)) [
  | inl gone ↦ rw gone (delete_user-sessions id users sessions h.1)
  | inr stays ↦ rw stays (
    has-filter (λ u. u.id) id s.user_id users stays ∙ h.0,
    delete_user-sessions id users sessions h.1,
  )
]

pub delete_role-users :
    (id : String) (roles : List RoleRow) (users : List UserRow)
    → not (any (λ u. u.role_id == id) users) ≡ true
    → All (λ u. has (λ r. r.id) u.role_id roles ≡ true) users
    → All (λ u. has (λ r. r.id) u.role_id (filter (λ r. not (r.id == id)) roles) ≡ true) users
delete_role-users id roles [] unused h = tt
delete_role-users id roles (u ∷ users) unused h = (
  has-filter (λ r. r.id) id u.role_id roles (ground arith) ∙ h.0,
  delete_role-users id roles users (ground arith) h.1,
)
