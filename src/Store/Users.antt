-- ===== src/Store/Users.antt =====
-- internal/store/users.go: the users and their roles. `trim` is `strings.TrimSpace`, and `same_name` is
-- the comparison of the column username, which ignores case.

pub mod Admins
use grok_search_mcp.Base.{
  ℕ, zero, suc, ◌+◌, ◌≡◌, String, Bool, true, false, not, ◌&&◌, ◌||◌, Option, none, some, List, [],
  ◌∷◌, leb, ltb, eqb, if◌then◌else◌,
}
use grok_search_mcp.Base.Keys.{◌==◌, string_key, nat_key}
use grok_search_mcp.Base.Assoc.{lookup, insert, erase, retain}
use grok_search_mcp.Base.Count.{count_by}
use grok_search_mcp.Base.Results.{Result, ok, error, ◌>>=◌, ◌>>◌}
use grok_search_mcp.Store.{
  UserRole, role_admin, role_user, User, Database, StoreError, user_not_found, last_admin,
  username_taken, username_required, tier_not_found, tier_not_assignable, invalid_role,
  empty_password_hash,
}
use grok_search_mcp.Store.Transaction.{Transaction, begin, exec, commit, transact}

-- `UserUpdates`: a column that is nil is not changed.
pub record UserUpdates : Type 0 where
  pub enabled : Option Bool
  pub role : Option String
  pub tier_id : Option String
  pub revoke_tokens : Option Bool
  pub password_hash : Option String

-- A role that the two constants name.
unfoldable pub parse_role : String → Option UserRole
parse_role text =
    if text == "admin" then some role_admin else if text == "user" then some role_user else none

unfoldable pub same_role : UserRole → UserRole → Bool
same_role role_admin role_admin = true
same_role role_admin role_user = false
same_role role_user role_admin = false
same_role role_user role_user = true

unfoldable pub same_flag : Bool → Bool → Bool
same_flag true b = b
same_flag false b = not b

abbrev pub is_enabled_admin : User → Bool
is_enabled_admin u = same_role u.role role_admin && u.enabled

-- `SELECT COUNT(*) FROM users WHERE role = 'admin' AND enabled = 1`
unfoldable pub count_enabled_admins : List (String × User) → ℕ
count_enabled_admins users = count_by is_enabled_admin users

-- `scanUser`: the calls of a past month read as none of the current one.
unfoldable pub scan_user : ℕ → User → User
scan_user current_period u =
    if eqb u.success_period current_period
    then u
    else record u { success_calls = 0; success_period = current_period }

-- What `UpdateUser` collects: the row, whether any column is set, and whether the tokens are revoked.
pub record Change : Type 0 where
  pub row : User
  pub sets : Bool
  pub bump : Bool

unfoldable pub change_enabled : Option Bool → Change → Change
change_enabled none c = c
change_enabled (some enabled) c =
    if same_flag enabled c.row.enabled
    then c
    else record { row = record (c.row) { enabled = enabled }; sets = true; bump = true }

unfoldable pub change_role : Option String → Change → Result StoreError Change
change_role none c = ok c
change_role (some text) c = elim (parse_role text) [
  | none ↦ error invalid_role
  | some role ↦ ok (
      if same_role role c.row.role
      then c
      else record { row = record (c.row) { role = role }; sets = true; bump = true })
]

unfoldable pub change_tier :
    (String → String) → List (String × Bool) → Option String → Change → Result StoreError Change
change_tier trim tiers none c = ok c
change_tier trim tiers (some text) c =
    if trim text == "" then error tier_not_assignable else elim (lookup (trim (trim text)) tiers) [
      | none ↦ error tier_not_assignable
      | some is_default ↦
          ok (record c { row = record (c.row) { tier_id = trim text }; sets = true })
    ]

unfoldable pub change_password :
    (String → String) → Option String → Change → Result StoreError Change
change_password trim none c = ok c
change_password trim (some text) c =
    if trim text == ""
    then error empty_password_hash
    else ok
        (record { row = record (c.row) { password_hash = trim text }; sets = true; bump = true })

unfoldable pub revoke_tokens : Option Bool → Change → Change
revoke_tokens none c = c
revoke_tokens (some revoke) c = if revoke then record c { bump = true } else c

unfoldable pub bump_version : Change → Change
bump_version c =
    if c.bump
    then record c { row = record (c.row) { token_version = c.row.token_version + 1 }; sets = true }
    else c

-- The columns that `UpdateUser` sets.
unfoldable pub collect_changes :
    (String → String) → List (String × Bool) → User → UserUpdates → Result StoreError Change
collect_changes trim tiers u updates = do
  c ←
      change_role updates.role
        (change_enabled updates.enabled (record { row = u; sets = false; bump = false }))
  c ← change_tier trim tiers updates.tier_id c
  c ← change_password trim updates.password_hash c
  ok (bump_version (revoke_tokens updates.revoke_tokens c))

-- The end of `UpdateUser`: the update, the check that an enabled admin is left, and the commit.
unfoldable pub store_change :
    Transaction → String → User → Change → ℕ → ℕ → Result StoreError User × Transaction
store_change tx id u c current_period now =
    let row = record (c.row) { updated_at = now } in
    let updated = exec (λ db. record db { users = insert id row db.users }) tx in
    if not c.sets
    then (ok (scan_user current_period u), commit tx)
    else if is_enabled_admin u
        && not (is_enabled_admin row)
        && ltb (count_enabled_admins updated.working.users) 1
    then (error last_admin, updated)
    else (ok (scan_user current_period row), commit updated)

-- `UpdateUser`, in its transaction.
unfoldable pub update_in :
    (String → String)
    → Transaction
    → String
    → UserUpdates
    → ℕ
    → ℕ
    → Result StoreError User × Transaction
update_in trim tx id updates current_period now = elim (lookup id tx.working.users) [
  | none ↦ (error user_not_found, tx)
  | some u ↦ elim (collect_changes trim tx.working.tiers u updates) [
    | error e ↦ (error e, tx)
    | ok c ↦ store_change tx id u c current_period now
  ]
]

-- `UpdateUser`
unfoldable pub update_user :
    (String → String) → Database → String → UserUpdates → ℕ → ℕ → Result StoreError User × Database
update_user trim db id updates current_period now =
    transact (λ tx. update_in trim tx id updates current_period now) db

-- Whether the key with that id belongs to the user.
unfoldable pub owns_key : Database → String → String → Bool
owns_key db id key_id = elim (lookup key_id db.apikeys) [ none ↦ false | some owner ↦ owner == id ]

-- The statements of `DeleteUser`, in their order. The last deletes by the foreign key the reservations of
-- the user as well.
unfoldable pub delete_usage : String → Database → Database
delete_usage id db = record db {
  usage_log = retain (λ key_id. not (owns_key db id key_id)) db.usage_log;
}

unfoldable pub delete_keys : String → Database → Database
delete_keys id db = record db { apikeys = retain (λ owner. not (owner == id)) db.apikeys }

unfoldable pub delete_row : String → Database → Database
delete_row id db = record db {
  users = erase id db.users;
  reservations = retain (λ r. not (r.user_id == id)) db.reservations;
}

-- The end of `DeleteUser`; `none` is no error. Without the row there is nothing that the last statement
-- affects.
unfoldable pub delete_rows : Transaction → String → Option StoreError × Transaction
delete_rows tx id =
    let emptied = exec (delete_keys id) (exec (delete_usage id) tx) in
    let deleted = exec (delete_row id) emptied in
    elim (lookup id emptied.working.users) [
      | none ↦ (some user_not_found, deleted)
      | some u ↦ (none, commit deleted)
    ]

-- `DeleteUser`, in its transaction.
unfoldable pub delete_in : Transaction → String → Option StoreError × Transaction
delete_in tx id = elim (lookup id tx.working.users) [
  | none ↦ (some user_not_found, tx)
  | some u ↦
      if is_enabled_admin u && leb (count_enabled_admins tx.working.users) 1
      then (some last_admin, tx)
      else delete_rows tx id
]

-- `DeleteUser`
unfoldable pub delete_user : Database → String → Option StoreError × Database
delete_user db id = transact (λ tx. delete_in tx id) db

unfoldable pub has_username : (String → String → Bool) → List (String × User) → String → Bool
has_username same_name [] username = false
has_username same_name ((id, u) ∷ users) username =
    same_name u.username username || has_username same_name users username

-- `SELECT id FROM tiers WHERE is_default = 1 LIMIT 1`
unfoldable pub default_tier : List (String × Bool) → Option String
default_tier [] = none
default_tier ((id, is_default) ∷ tiers) =
    let rest = default_tier tiers in if is_default then some id else rest

abbrev pub new_row : String → String → UserRole → String → ℕ → ℕ → User
new_row username password_hash role tier_id period now = record {
  username = username;
  password_hash = password_hash;
  role = role;
  enabled = true;
  tier_id = tier_id;
  success_calls = 0;
  success_period = period;
  token_version = 0;
  created_at = now;
  updated_at = now;
}

-- The insertion of `CreateUser`, and the commit: a user name or a primary key that is there violates UNIQUE.
unfoldable pub insert_user :
    (String → String → Bool) → Transaction → String → User → Result StoreError User × Transaction
insert_user same_name tx id row = elim (lookup id tx.working.users) [
  | some other ↦ (error username_taken, tx)
  | none ↦
      if has_username same_name tx.working.users row.username
      then (error username_taken, tx)
      else (ok row, commit (exec (λ db. record db { users = insert id row db.users }) tx))
]

-- `CreateUser`, in its transaction.
unfoldable pub create_in :
    (String → String → Bool)
    → Transaction
    → String
    → String
    → String
    → UserRole
    → ℕ
    → ℕ
    → Result StoreError User × Transaction
create_in same_name tx id username password_hash role period now =
    elim (default_tier tx.working.tiers) [
      | none ↦ (error tier_not_found, tx)
      | some tier ↦
          insert_user same_name tx id (new_row username password_hash role tier period now)
    ]

-- `CreateUser` with the random id that it draws.
unfoldable pub create_user :
    (String → String)
    → (String → String → Bool)
    → Database
    → String
    → String
    → String
    → String
    → ℕ
    → ℕ
    → Result StoreError User × Database
create_user trim same_name db id username password_hash role period now =
    if trim username == "" then (error username_required, db) else elim (parse_role role) [
      | none ↦ (error invalid_role, db)
      | some r ↦
          transact (λ tx. create_in same_name tx id (trim username) password_hash r period now) db
    ]

-- `GetUserByID`
unfoldable pub get_user_by_id : Database → String → ℕ → Result StoreError User
get_user_by_id db id current_period = elim (lookup id db.users) [
  | none ↦ error user_not_found
  | some u ↦ ok (scan_user current_period u)
]
