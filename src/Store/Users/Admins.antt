-- ===== src/Store/Users/Admins.antt =====
-- users.go: there is always an enabled administrator, and a failed transaction changes nothing.
use grok_search_mcp.Base.Int.{ℤ}
use grok_search_mcp.Base.{
  eqb, refl, ℕ, ◌+◌, ◌<◌, ◌≡◌, inl, inr, String, Bool, true, false, not, ◌&&◌, none, some, arith,
  leb, ltb, Bool-cases, Option-cases,
}
use grok_search_mcp.Base.Keys.{◌==◌, string_key, nat_key}
use grok_search_mcp.Base.Assoc.{lookup, insert, erase, Unique, insert-Unique, erase-Unique}
use grok_search_mcp.Base.Count.{
  count_by, one_if, count_by-insert_old, count_by-insert_new, count_by-erase,
}
use grok_search_mcp.Base.Results.{Result-cases}
use grok_search_mcp.Store.{SuccessQuotaReservation, User, Database}
use grok_search_mcp.Store.Transaction.{begin, exec, commit}
use grok_search_mcp.Store.Quota.{
  charge_row, is_valid, effective_calls, is_within, count_call, insert_reservation,
  reserve_success_call, reserve_in, refund_call, refund, is_held, finish_call,
  complete_success_call, complete_in,
}
use grok_search_mcp.Store.Users.{
  UserUpdates, Change, is_enabled_admin, count_enabled_admins, collect_changes, store_change,
  update_user, update_in, delete_rows, delete_usage, delete_keys, delete_row, delete_user,
  delete_in, insert_user, create_in, create_user, parse_role, default_tier, new_row, has_username,
}

-- The ids are different, and an enabled administrator is there.
pub record HasAdmin (db : Database) : Type 0 where
  pub unique : Unique db.users
  pub some_admin : 0 < count_enabled_admins db.users

-- Counts after a change of one row that was or was not counted, and is or is not.
keeps_one :
    (was is : Bool) (after before : ℕ)
    → one_if was + after ≡ one_if is + before
    → 0 < before
    → ((was && not is) && ltb after 1) ≡ false
    → 0 < after
keeps_one false false after before count some_before kept = omega arith
keeps_one false true after before count some_before kept = omega arith
keeps_one true true after before count some_before kept = omega arith
keeps_one true false after before count some_before kept = ground arith

leaves_one :
    (was : Bool) (after before : ℕ)
    → one_if was + after ≡ before
    → 0 < before
    → (was && leb before 1) ≡ false
    → 0 < after
leaves_one false after before count some_before kept = omega arith
leaves_one true after before count some_before kept = ground arith

store_change-HasAdmin :
    (db : Database) (id : String) (u : User) (c : Change) (period now : ℕ)
    → lookup id db.users ≡ some u
    → HasAdmin db
    → HasAdmin (store_change (begin db) id u c period now).1.committed
unfolding store_change count_enabled_admins
store_change-HasAdmin db id u c period now found v =
    let row : User = record (c.row) { updated_at = now } in
    let count = count_by-insert_old is_enabled_admin id row u db.users found in
    let fits = insert-Unique id row db.users v.unique in
    elim (Bool-cases (not c.sets)) [
      | inl nothing ↦ rw nothing v
      | inr sets ↦
          let removes : Bool = is_enabled_admin u && not (is_enabled_admin row) in
          elim (Bool-cases (removes && ltb (count_enabled_admins (insert id row db.users)) 1)) [
            | inl refused ↦ rw (sets, refused) v
            | inr stored ↦
                rw (sets, stored)
                  (record {
                    unique = fits;
                    some_admin =
                        keeps_one (is_enabled_admin u) (is_enabled_admin row)
                          (count_by is_enabled_admin (insert id row db.users))
                          (count_by is_enabled_admin db.users) count v.some_admin stored;
                  })
          ]
    ]

pub update_user-HasAdmin :
    (trim : String → String) (db : Database) (id : String) (updates : UserUpdates) (period now : ℕ)
    → HasAdmin db
    → HasAdmin (update_user trim db id updates period now).1
unfolding update_user update_in lookup
update_user-HasAdmin trim db id updates period now v = elim (Option-cases (lookup id db.users)) [
  | inl unknown ↦ rw (unknown, update_user, update_in) v
  | inr (u, found) ↦ elim (Result-cases (collect_changes trim db.tiers u updates)) [
    | inr (e, refused) ↦ rw (found, update_user, update_in, refused) v
    | inl (c, collected) ↦
        rw (found, update_user, update_in, collected)
          (store_change-HasAdmin db id u c period now found v)
  ]
]

emptied_users :
    (db : Database) (id : String) → (delete_keys id (delete_usage id db)).users ≡ db.users
unfolding delete_keys delete_usage
emptied_users db id = refl

-- The row that was read in the transaction is there for the last statement.
pub delete_rows-committed :
    (db : Database) (id : String) (u : User)
    → lookup id db.users ≡ some u
    → delete_rows (begin db) id ≡ (
      none,
      commit (exec (delete_row id) (exec (delete_keys id) (exec (delete_usage id) (begin db)))),
    )
unfolding delete_rows delete_usage delete_keys lookup
delete_rows-committed db id u found = rw (found, delete_rows) refl

delete_row-HasAdmin :
    (db emptied : Database) (id : String) (u : User)
    → emptied.users ≡ db.users
    → lookup id db.users ≡ some u
    → (is_enabled_admin u && leb (count_enabled_admins db.users) 1) ≡ false
    → HasAdmin db
    → HasAdmin (delete_row id emptied)
unfolding delete_row count_enabled_admins
delete_row-HasAdmin db emptied id u same found removed v =
    let count = count_by-erase is_enabled_admin id u db.users v.unique found in
    record {
      unique = rw same (erase-Unique id db.users v.unique);
      some_admin = rw same (
          leaves_one (is_enabled_admin u) (count_by is_enabled_admin (erase id db.users))
            (count_by is_enabled_admin db.users) count v.some_admin removed);
    }

pub delete_user-HasAdmin :
    (db : Database) (id : String) → HasAdmin db → HasAdmin (delete_user db id).1
unfolding delete_user delete_in lookup
delete_user-HasAdmin db id v = elim (Option-cases (lookup id db.users)) [
  | inl unknown ↦ rw (unknown, delete_user, delete_in) v
  | inr (u, found) ↦
      elim (Bool-cases (is_enabled_admin u && leb (count_enabled_admins db.users) 1)) [
        | inl refused ↦ rw (found, delete_user, delete_in, refused) v
        | inr removed ↦
            let emptied : Database = delete_keys id (delete_usage id db) in
            rw (found, delete_user, delete_in, removed, delete_rows-committed db id u found)
              (delete_row-HasAdmin db emptied id u (emptied_users db id) found removed v)
      ]
]

insert_user-HasAdmin :
    (same_name : String → String → Bool) (db : Database) (id : String) (row : User)
    → HasAdmin db
    → HasAdmin (insert_user same_name (begin db) id row).1.committed
unfolding insert_user count_enabled_admins
insert_user-HasAdmin same_name db id row v = elim (Option-cases (lookup id db.users)) [
  | inr (u, found) ↦ rw (found, insert_user) v
  | inl fresh ↦ elim (Bool-cases (has_username same_name db.users row.username)) [
    | inl taken ↦ rw (fresh, insert_user, taken) v
    | inr free ↦
        rw (fresh, insert_user, free)
          (record {
            unique = insert-Unique id row db.users v.unique;
            some_admin =
                omega
                  (arith, v.some_admin, count_by-insert_new is_enabled_admin id row db.users fresh);
          })
  ]
]

pub create_user-HasAdmin :
    (trim : String → String) (same_name : String → String → Bool) (db : Database)
    (id username password_hash role : String) (period now : ℕ)
    → HasAdmin db
    → HasAdmin (create_user trim same_name db id username password_hash role period now).1
unfolding create_user create_in default_tier
create_user-HasAdmin trim same_name db id username password_hash role period now v =
    elim (Bool-cases (trim username == "")) [
      | inl empty ↦ rw (empty, create_user) v
      | inr named ↦ elim (Option-cases (parse_role role)) [
        | inl bad ↦ rw (named, bad, create_user) v
        | inr (r, good) ↦ elim (Option-cases (default_tier db.tiers)) [
          | inl missing ↦ rw (named, good, missing, create_user, create_in) v
          | inr (tier, there) ↦
              rw (named, good, there, create_user, create_in)
                (insert_user-HasAdmin same_name db id
                  (new_row (trim username) password_hash r tier period now) v)
        ]
      ]
    ]

-- A row that counts the same.
same_role-HasAdmin :
    (db : Database) (id : String) (u row : User)
    → lookup id db.users ≡ some u
    → is_enabled_admin row ≡ is_enabled_admin u
    → HasAdmin db
    → HasAdmin (record db { users = insert id row db.users })
unfolding count_enabled_admins
same_role-HasAdmin db id u row found same v = record {
  unique = insert-Unique id row db.users v.unique;
  some_admin =
      let count = count_by-insert_old is_enabled_admin id row u db.users found in
      let counted : one_if (is_enabled_admin u) + count_by is_enabled_admin (insert id row db.users)
          ≡ one_if (is_enabled_admin u) + count_by is_enabled_admin db.users =
        rw same at count in
      omega (arith, counted, v.some_admin);
}

insert_reservation-HasAdmin :
    (db : Database) (id : String) (r : SuccessQuotaReservation) (u : User)
    → lookup r.user_id db.users ≡ some u
    → HasAdmin db
    → HasAdmin (insert_reservation (exec (charge_row r u) (begin db)) id r).1.committed
unfolding insert_reservation count_enabled_admins
insert_reservation-HasAdmin db id r u found v = elim (Option-cases (lookup id db.reservations)) [
  | inr (held, there) ↦ rw (there, insert_reservation) v
  | inl fresh ↦
      let w = same_role-HasAdmin db r.user_id u (count_call r.period u) found refl v in
      rw (fresh, insert_reservation) (record { unique = w.unique; some_admin = w.some_admin })
]

pub reserve_success_call-HasAdmin :
    (db : Database) (id user_id : String) (limit : ℤ) (period : ℕ)
    → HasAdmin db
    → HasAdmin (reserve_success_call db id user_id limit period).1
unfolding reserve_success_call reserve_in lookup
reserve_success_call-HasAdmin db id user_id limit period v =
    elim (Option-cases (lookup user_id db.users)) [
      | inl unknown ↦ rw (unknown, reserve_in) v
      | inr (u, found) ↦ elim (Bool-cases (is_within limit (effective_calls period u))) [
        | inr full ↦ rw (found, reserve_in, full) v
        | inl within ↦
            rw (found, reserve_in, within)
              (insert_reservation-HasAdmin db id (record { user_id = user_id; period = period }) u
                found v)
      ]
    ]

refund_call-is_enabled_admin :
    (period : ℕ) (u : User) → is_enabled_admin (refund_call period u) ≡ is_enabled_admin u
refund_call-is_enabled_admin period u =
    elim (Bool-cases (eqb u.success_period period && ltb 0 u.success_calls)) [
      | inl counted ↦ rw counted refl
      | inr gone ↦ rw gone refl
    ]

refund-HasAdmin :
    (db : Database) (r : SuccessQuotaReservation)
    → HasAdmin db
    → HasAdmin (record db { users = refund r db.users })
unfolding refund
refund-HasAdmin db r v = elim (Option-cases (lookup r.user_id db.users)) [
  | inl unknown ↦ rw (unknown, refund) v
  | inr (u, found) ↦
      rw (found, refund)
        (same_role-HasAdmin db r.user_id u (refund_call r.period u) found
          (refund_call-is_enabled_admin r.period u) v)
]

pub complete_success_call-HasAdmin :
    (trim : String → String) (db : Database) (id : String) (r : SuccessQuotaReservation)
    (succeeded : Bool)
    → HasAdmin db
    → HasAdmin (complete_success_call trim db id r succeeded).1
unfolding complete_success_call complete_in finish_call count_enabled_admins is_held lookup
complete_success_call-HasAdmin trim db id r succeeded v = elim (Bool-cases (is_valid trim id r)) [
  | inr bad ↦ rw bad v
  | inl good ↦ elim (Bool-cases (is_held db id r)) [
    | inr gone ↦ rw (good, gone) v
    | inl held ↦ elim (Bool-cases succeeded) [
      | inl fine ↦ rw (good, held, fine) (record { unique = v.unique; some_admin = v.some_admin })
      | inr failed ↦
          let w = refund-HasAdmin db r v in
          rw (good, held, failed) (record { unique = w.unique; some_admin = w.some_admin })
    ]
  ]
]
