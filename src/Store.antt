-- ===== src/Store.antt =====
-- internal/store: the tables of the database as lists of rows by primary key. A transaction is one
-- step. Statements that fail for reasons outside the
-- database's contents (input, output, cancellation) are not modelled.
pub mod Transaction
pub mod Users
pub mod Quota
pub mod Calls
use grok_search_mcp.Base.{ℕ, String, Bool, List}

pub data UserRole : Type 0 where
  role_admin role_user : UserRole

-- `User`, a row of the table users. A period is a month, numbered in the order of its text "2006-01".
pub record User : Type 0 where
  pub username : String
  pub password_hash : String
  pub role : UserRole
  pub enabled : Bool
  pub tier_id : String
  pub success_calls : ℕ
  pub success_period : ℕ
  pub token_version : ℕ
  pub created_at : ℕ
  pub updated_at : ℕ

-- `SuccessQuotaReservation`, a row of success_quota_reservations without its key.
pub record SuccessQuotaReservation : Type 0 where
  pub user_id : String
  pub period : ℕ

-- The columns that this package's user and quota operations read: a key's owner, a record's key, and
-- whether a tier is the default.
pub record Database : Type 0 where
  pub users : List (String × User)
  pub tiers : List (String × Bool)
  pub apikeys : List (String × String)
  pub usage_log : List (ℕ × String)
  pub reservations : List (String × SuccessQuotaReservation)

pub data StoreError : Type 0 where
  user_not_found last_admin username_taken username_required tier_not_found : StoreError
  tier_not_assignable invalid_role empty_password_hash quota_success : StoreError
  invalid_reservation duplicate_reservation : StoreError
