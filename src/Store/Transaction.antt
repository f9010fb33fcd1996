-- ===== src/Store/Transaction.antt =====
-- internal/store: the transactions of database/sql that the operations use. A transaction works on a copy
-- of the tables; `Commit` makes the copy the database, and the deferred `Rollback` drops what no commit
-- has kept.
use grok_search_mcp.Store.{Database}

pub record Transaction : Type 0 where
  pub committed : Database
  pub working : Database

-- `BeginTx`
abbrev pub begin : Database → Transaction
begin db = record { committed = db; working = db }

-- `ExecContext` of a statement.
abbrev pub exec : (Database → Database) → Transaction → Transaction
exec statement tx = record tx { working = statement tx.working }

-- `Commit`
abbrev pub commit : Transaction → Transaction
commit tx = record tx { committed = tx.working }

-- What a function that begins a transaction and defers its `Rollback` returns, and the database after it.
abbrev pub transact {ℓ} : {A : Type ℓ} → (Transaction → A × Transaction) → Database → A × Database
transact body db = let ended = body (begin db) in (ended.0, ended.1.committed)
