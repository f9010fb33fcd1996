-- ===== src/Store/Calls/Atomicity.antt =====
-- users.go: a call that returns an error has committed nothing.
use grok_search_mcp.Base.{
  ℕ, ◌≡◌, refl, inl, inr, String, Bool, Option, none, some, not, ◌&&◌, ltb, leb, Bool-cases,
  Option-cases,
}
use grok_search_mcp.Base.Int.{ℤ}
use grok_search_mcp.Base.Keys.{◌==◌, string_key}
use grok_search_mcp.Base.Assoc.{lookup, insert}
use grok_search_mcp.Base.Results.{Result, ok, error, Result-cases}
use grok_search_mcp.Store.{User, SuccessQuotaReservation, Database, StoreError}
use grok_search_mcp.Store.Users.{
  UserUpdates, Change, is_enabled_admin, count_enabled_admins, collect_changes, store_change,
  update_user, update_in, delete_user, delete_in, insert_user, create_in, create_user, parse_role,
  default_tier, new_row, has_username,
}
use grok_search_mcp.Store.Transaction.{transact}
use grok_search_mcp.Store.Users.Admins.{delete_rows-committed}
use grok_search_mcp.Store.Quota.{
  is_valid, effective_calls, is_within, insert_reservation, reserve_success_call, reserve_in,
  is_held, complete_success_call, complete_in,
}
use grok_search_mcp.Store.Calls.{
  StoreCall, creates, updates, deletes, reserves, completes, failure, store_call,
}

-- The answer is no error, or the database is as before.
KeepsOnError : Database → Option StoreError × Database → Type 0
KeepsOnError db (none, after) = Unit
KeepsOnError db (some e, after) = after ≡ db

KeepsOnFailure {ℓ} : {A : Type ℓ} → Database → Result StoreError A × Database → Type 0
KeepsOnFailure db (ok a, after) = Unit
KeepsOnFailure db (error e, after) = after ≡ db

failure-KeepsOnError {ℓ} :
    {A : Type ℓ} (db : Database) (called : Result StoreError A × Database)
    → KeepsOnFailure db called
    → KeepsOnError db (failure called.0, called.1)
unfolding KeepsOnError KeepsOnFailure failure
failure-KeepsOnError db (ok a, after) k = tt
failure-KeepsOnError db (error e, after) k = k

KeepsOnError_lem :
    (db : Database) (called : Option StoreError × Database) (e : StoreError)
    → KeepsOnError db called
    → called.0 ≡ some e
    → called.1 ≡ db
unfolding KeepsOnError
KeepsOnError_lem db (none, after) e k h = cc
KeepsOnError_lem db (some e', after) e k h = k

store_change-Keeps :
    (db : Database) (id : String) (u : User) (c : Change) (period now : ℕ)
    → KeepsOnFailure db (transact (λ tx. store_change tx id u c period now) db)
unfolding KeepsOnFailure store_change
store_change-Keeps db id u c period now =
    let row : User = record (c.row) { updated_at = now } in
    elim (Bool-cases (not c.sets)) [
      | inl nothing ↦ rw nothing tt
      | inr sets ↦
          elim (Bool-cases (
            is_enabled_admin u
            && not (is_enabled_admin row)
            && ltb (count_enabled_admins (insert id row db.users)) 1)) [
              | inl refused ↦ rw (sets, refused) refl
              | inr stored ↦ rw (sets, stored) tt
            ]
    ]

update_user-Keeps :
    (trim : String → String) (db : Database) (id : String) (changes : UserUpdates) (period now : ℕ)
    → KeepsOnFailure db (update_user trim db id changes period now)
unfolding KeepsOnFailure update_user update_in lookup
update_user-Keeps trim db id changes period now = elim (Option-cases (lookup id db.users)) [
  | inl unknown ↦ rw (unknown, update_user, update_in) refl
  | inr (u, found) ↦ elim (Result-cases (collect_changes trim db.tiers u changes)) [
    | inr (e, refused) ↦ rw (found, update_user, update_in, refused) refl
    | inl (c, collected) ↦
        rw (found, update_user, update_in, collected) (store_change-Keeps db id u c period now)
  ]
]

insert_user-Keeps :
    (same_name : String → String → Bool) (db : Database) (id : String) (row : User)
    → KeepsOnFailure db (transact (λ tx. insert_user same_name tx id row) db)
unfolding KeepsOnFailure insert_user
insert_user-Keeps same_name db id row = elim (Option-cases (lookup id db.users)) [
  | inr (u, found) ↦ rw (found, insert_user) refl
  | inl fresh ↦ elim (Bool-cases (has_username same_name db.users row.username)) [
    | inl taken ↦ rw (fresh, insert_user, taken) refl
    | inr free ↦ rw (fresh, insert_user, free) tt
  ]
]

create_user-Keeps :
    (trim : String → String) (same_name : String → String → Bool) (db : Database)
    (id username password_hash role : String) (period now : ℕ)
    → KeepsOnFailure db (create_user trim same_name db id username password_hash role period now)
unfolding KeepsOnFailure create_user create_in default_tier
create_user-Keeps trim same_name db id username password_hash role period now =
    elim (Bool-cases (trim username == "")) [
      | inl empty ↦ rw (empty, create_user) refl
      | inr named ↦ elim (Option-cases (parse_role role)) [
        | inl bad ↦ rw (named, bad, create_user) refl
        | inr (r, good) ↦ elim (Option-cases (default_tier db.tiers)) [
          | inl missing ↦ rw (named, good, missing, create_user, create_in) refl
          | inr (tier, there) ↦
              rw (named, good, there, create_user, create_in)
                (insert_user-Keeps same_name db id
                  (new_row (trim username) password_hash r tier period now))
        ]
      ]
    ]

delete_user-Keeps : (db : Database) (id : String) → KeepsOnError db (delete_user db id)
unfolding KeepsOnError delete_user delete_in lookup
delete_user-Keeps db id = elim (Option-cases (lookup id db.users)) [
  | inl unknown ↦ rw (unknown, delete_user, delete_in) refl
  | inr (u, found) ↦
      elim (Bool-cases (is_enabled_admin u && leb (count_enabled_admins db.users) 1)) [
        | inl refused ↦ rw (found, delete_user, delete_in, refused) refl
        | inr removed ↦
            rw (found, delete_user, delete_in, removed, delete_rows-committed db id u found) tt
      ]
]

reserve_success_call-Keeps :
    (db : Database) (id user_id : String) (limit : ℤ) (period : ℕ)
    → KeepsOnFailure db (reserve_success_call db id user_id limit period)
unfolding KeepsOnFailure reserve_success_call reserve_in lookup insert_reservation
reserve_success_call-Keeps db id user_id limit period =
    elim (Option-cases (lookup user_id db.users)) [
      | inl unknown ↦ rw (unknown, reserve_in) refl
      | inr (u, found) ↦ elim (Bool-cases (is_within limit (effective_calls period u))) [
        | inr full ↦ rw (found, reserve_in, full) refl
        | inl within ↦ elim (Option-cases (lookup id db.reservations)) [
          | inr (held, there) ↦ rw (found, reserve_in, within, there, insert_reservation) refl
          | inl fresh ↦ rw (found, reserve_in, within, fresh, insert_reservation) tt
        ]
      ]
    ]

complete_success_call-Keeps :
    (trim : String → String) (db : Database) (id : String) (r : SuccessQuotaReservation)
    (succeeded : Bool)
    → KeepsOnError db (complete_success_call trim db id r succeeded)
unfolding KeepsOnError complete_success_call complete_in is_held lookup
complete_success_call-Keeps trim db id r succeeded = elim (Bool-cases (is_valid trim id r)) [
  | inr bad ↦ rw bad refl
  | inl good ↦ elim (Bool-cases (is_held db id r)) [
    | inr gone ↦ rw (good, gone) tt
    | inl held ↦ rw (good, held) tt
  ]
]

module _ (trim : String → String) (same_name : String → String → Bool) where
  store_call-Keeps :
      (db : Database) (c : StoreCall) → KeepsOnError db (store_call trim same_name db c)
  unfolding store_call
  store_call-Keeps db (creates id username password_hash role period now) =
      failure-KeepsOnError db
        (create_user trim same_name db id username password_hash role period now)
        (create_user-Keeps trim same_name db id username password_hash role period now)
  store_call-Keeps db (updates id changes period now) =
      failure-KeepsOnError db (update_user trim db id changes period now)
        (update_user-Keeps trim db id changes period now)
  store_call-Keeps db (deletes id) = delete_user-Keeps db id
  store_call-Keeps db (reserves id user_id limit period) =
      failure-KeepsOnError db (reserve_success_call db id user_id limit period)
        (reserve_success_call-Keeps db id user_id limit period)
  store_call-Keeps db (completes id r succeeded) =
      complete_success_call-Keeps trim db id r succeeded

  -- A call that returns an error, of whatever kind, commits nothing: it leaves the whole database as it was,
  -- whatever its transaction had changed.
  pub store_call-error :
      (db : Database) (c : StoreCall) (e : StoreError)
      → (store_call trim same_name db c).0 ≡ some e
      → (store_call trim same_name db c).1 ≡ db
  store_call-error db c e h =
      KeepsOnError_lem db (store_call trim same_name db c) e (store_call-Keeps db c) h
