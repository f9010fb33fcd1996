-- ===== src/Store/Calls.antt =====
-- internal/store/users.go: the administration of users and the success-call quota together, each call a
-- transaction of its own.
pub mod Atomicity
mod Tests
use grok_search_mcp.Base.{
  ℕ, ◌≡◌, refl, inl, inr, String, Bool, true, false, Option, none, some, List, [], ◌∷◌, not, ◌&&◌,
  ltb, leb, if◌then◌else◌, Bool-cases, Option-cases,
}
use grok_search_mcp.Base.Int.{ℤ}
use grok_search_mcp.Base.Keys.{◌==◌, string_key}
use grok_search_mcp.Base.Assoc.{lookup, insert}
use grok_search_mcp.Base.Results.{Result, ok, error, Result-cases}
use grok_search_mcp.Store.{User, SuccessQuotaReservation, Database, StoreError}
use grok_search_mcp.Store.Users.{
  UserUpdates, Change, is_enabled_admin, count_enabled_admins, collect_changes, store_change,
  update_user, delete_user, delete_rows, insert_user, create_user, parse_role, default_tier,
  new_row, has_username,
}
use grok_search_mcp.Store.Quota.{
  is_valid, effective_calls, is_within, insert_reservation, reserve_success_call, is_held,
  complete_success_call,
}
use grok_search_mcp.Store.Users.Admins.{
  HasAdmin, update_user-HasAdmin, delete_user-HasAdmin, create_user-HasAdmin,
  reserve_success_call-HasAdmin, complete_success_call-HasAdmin,
}

-- The calls, with the values that they draw: an id, the month and the time.
pub data StoreCall : Type 0 where
  creates : (id username password_hash role : String) → (period now : ℕ) → StoreCall
  updates : (id : String) → UserUpdates → (period now : ℕ) → StoreCall
  deletes : (id : String) → StoreCall
  reserves : (id user_id : String) → (limit : ℤ) → (period : ℕ) → StoreCall
  completes : (id : String) → SuccessQuotaReservation → (succeeded : Bool) → StoreCall

-- The error of a result.
unfoldable pub failure {ℓ} : {A : Type ℓ} → Result StoreError A → Option StoreError
failure (ok a) = none
failure (error e) = some e

module _ (trim : String → String) (same_name : String → String → Bool) where
  -- The error of a call, and the database after it.
  unfoldable pub store_call : Database → StoreCall → Option StoreError × Database
  store_call db (creates id username password_hash role period now) =
      let called = create_user trim same_name db id username password_hash role period now in
      (failure called.0, called.1)
  store_call db (updates id changes period now) =
      let called = update_user trim db id changes period now in (failure called.0, called.1)
  store_call db (deletes id) = delete_user db id
  store_call db (reserves id user_id limit period) =
      let called = reserve_success_call db id user_id limit period in (failure called.0, called.1)
  store_call db (completes id r succeeded) = complete_success_call trim db id r succeeded

  unfoldable pub run_calls : Database → List StoreCall → Database
  run_calls db [] = db
  run_calls db (c ∷ calls) = run_calls (store_call db c).1 calls

  store_call-HasAdmin : (db : Database) (c : StoreCall) → HasAdmin db → HasAdmin (store_call db c).1
  unfolding store_call
  store_call-HasAdmin db (creates id username password_hash role period now) v =
      create_user-HasAdmin trim same_name db id username password_hash role period now v
  store_call-HasAdmin db (updates id changes period now) v =
      update_user-HasAdmin trim db id changes period now v
  store_call-HasAdmin db (deletes id) v = delete_user-HasAdmin db id v
  store_call-HasAdmin db (reserves id user_id limit period) v =
      reserve_success_call-HasAdmin db id user_id limit period v
  store_call-HasAdmin db (completes id r succeeded) v =
      complete_success_call-HasAdmin trim db id r succeeded v

  -- Where the ids of the users are different and an enabled administrator is there, both stay so along
  -- every sequence of creations, updates and deletions of users and of reserved and completed calls.
  pub run_calls-HasAdmin :
      (db : Database) (calls : List StoreCall) → HasAdmin db → HasAdmin (run_calls db calls)
  unfolding run_calls
  run_calls-HasAdmin db [] v = v
  run_calls-HasAdmin db (c ∷ calls) v =
      run_calls-HasAdmin (store_call db c).1 calls (store_call-HasAdmin db c v)
