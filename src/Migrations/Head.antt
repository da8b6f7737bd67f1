-- ===== src/Migrations/Head.antt =====
-- The schema after all scripts of alembic/versions, against the models.
pub mod Agrees
use distributed_wallet_ledge.Base.{◌≡◌, refl, subst, true, false, some, List, [], ◌∷◌, ◌++◌}
use mathlib.Core.List.{append-nil, Permᴰ}
use mathlib.Core.List.Permᴰ
use distributed_wallet_ledge.Base.Text.{Text, codes, text_eq}
use distributed_wallet_ledge.Base.Rows.{exists, All, drop}
use distributed_wallet_ledge.Migrations.{
  apply, run, Catalog, Table, table_is, index_is, table_refers_to, primary_key_constraint,
  foreign_key_constraint, check_constraint, unique_constraint, string, Constraint,
}
use distributed_wallet_ledge.Migrations.Columns.{column, index_on}
use distributed_wallet_ledge.Migrations.Accounts.{
  users_columns, wallets_columns, upgrade_users, upgrade_wallets,
}
use distributed_wallet_ledge.Migrations.Entries.{
  transactions_columns, ledger_entries_columns, seq_column, upgrade_ledger, upgrade_idempotency_key,
  upgrade_seq,
}
use distributed_wallet_ledge.Migrations.Events.{
  outbox_events_columns, transaction_stats_columns, processed_events_columns, unpublished_index,
  upgrade_outbox, upgrade_analytics,
}
use distributed_wallet_ledge.Migrations.Revisions.{
  upgrade_init, upgrade, upgrades, lineage, down_revision, add_seq_to_ledger_entries,
}
use distributed_wallet_ledge.Migrations.Models.{
  metadata, users_model, wallets_model, transactions_model, ledger_entries_model,
  outbox_events_model, transaction_stats_model, processed_events_model,
}

-- The same table up to the order of its columns, constraints and indexes.
pub record Matches (t u : Table) : Type 0 where
  pub same_name : t.table_name ≡ u.table_name
  pub same_columns : Permᴰ t.columns u.columns
  pub same_constraints : Permᴰ t.constraints u.constraints
  pub same_indexes : Permᴰ t.indexes u.indexes

pub AllMatch : Catalog → Catalog → Type 0
AllMatch [] [] = Unit
AllMatch (t ∷ ts) (u ∷ us) = Matches t u × AllMatch ts us
AllMatch _ _ = ⊥

abbrev table_names : List Text
table_names =
    codes "users"
    ∷ codes "wallets"
    ∷ codes "transactions"
    ∷ codes "ledger_entries"
    ∷ codes "outbox_events"
    ∷ codes "transaction_stats"
    ∷ codes "processed_events"
    ∷ []

abbrev index_names : List Text
index_names =
    codes "ix_users_email"
    ∷ codes "ix_wallets_user_id"
    ∷ codes "ix_ledger_entries_transaction_id"
    ∷ codes "ix_ledger_entries_wallet_id"
    ∷ codes "ix_transactions_idempotency_key"
    ∷ codes "ix_outbox_events_aggregate_id"
    ∷ codes "ix_outbox_unpublished"
    ∷ codes "ix_ledger_entries_seq"
    ∷ []

-- A catalog in which no name of the program is taken, by a table, a reference or an index.
pub record Unclaimed (c : Catalog) : Type 0 where
  pub no_table : All (λ n. exists (table_is n) c ≡ false) table_names
  pub no_reference : All (λ n. exists (table_refers_to n) c ≡ false) table_names
  pub no_index : All (λ n. exists (λ t. exists (index_is n) t.indexes) c ≡ false) index_names

abbrev ledger_references : List Constraint
ledger_references =
    foreign_key_constraint (codes "transaction_id" ∷ []) (codes "transactions") (codes "id" ∷ [])
      (codes "RESTRICT")
    ∷ foreign_key_constraint (codes "wallet_id" ∷ []) (codes "wallets") (codes "id" ∷ [])
        (codes "RESTRICT")
    ∷ []

abbrev wallet_checks : List Constraint
wallet_checks =
    check_constraint (codes "available_balance >= 0") (codes "ck_wallet_available_nonneg")
    ∷ check_constraint (codes "locked_balance >= 0") (codes "ck_wallet_locked_nonneg")
    ∷ foreign_key_constraint (codes "user_id" ∷ []) (codes "users") (codes "id" ∷ [])
        (codes "CASCADE")
    ∷ primary_key_constraint (codes "id" ∷ [])
    ∷ []

-- What was appended stands elsewhere among the models'.
last_first {ℓ} : {A : Type ℓ} (x : A) (xs : List A) → Permᴰ (xs ++ (x ∷ [])) (x ∷ xs)
last_first x xs =
    subst (λ ys. Permᴰ (xs ++ (x ∷ [])) (x ∷ ys)) (append-nil xs) (Permᴰ.middle x xs [])

-- The tables that the scripts make, the newest first.
tables_at_head : Catalog
unfolding processed_events_columns transaction_stats_columns outbox_events_columns
tables_at_head =
    record {
      table_name = codes "processed_events";
      columns = processed_events_columns;
      constraints = primary_key_constraint (codes "consumer" ∷ codes "transaction_id" ∷ []) ∷ [];
      indexes = [];
    }
    ∷ record {
      table_name = codes "transaction_stats";
      columns = transaction_stats_columns;
      constraints = primary_key_constraint (codes "currency" ∷ codes "type" ∷ []) ∷ [];
      indexes = [];
    }
    ∷ record {
      table_name = codes "outbox_events";
      columns = outbox_events_columns;
      constraints = primary_key_constraint (codes "id" ∷ []) ∷ [];
      indexes =
          unpublished_index
          ∷ index_on (codes "ix_outbox_events_aggregate_id") (codes "aggregate_id") false
          ∷ [];
    }
    ∷ record {
      table_name = codes "ledger_entries";
      columns = ledger_entries_columns ++ (seq_column ∷ []);
      constraints =
          check_constraint (codes "amount > 0") (codes "ck_ledger_amount_positive")
            ∷ check_constraint
                (codes "(wallet_id IS NOT NULL)::int + (system_account IS NOT NULL)::int = 1")
                (codes "ck_ledger_exactly_one_side")
            ∷ ledger_references
          ++ (primary_key_constraint (codes "id" ∷ []) ∷ []);
      indexes =
          index_on (codes "ix_ledger_entries_seq") (codes "seq") false
          ∷ index_on (codes "ix_ledger_entries_wallet_id") (codes "wallet_id") false
          ∷ index_on (codes "ix_ledger_entries_transaction_id") (codes "transaction_id") false
          ∷ [];
    }
    ∷ record {
      table_name = codes "transactions";
      columns = transactions_columns ++ (column (codes "idempotency_key") (string 255) true ∷ []);
      constraints = primary_key_constraint (codes "id" ∷ []) ∷ [];
      indexes =
          index_on (codes "ix_transactions_idempotency_key") (codes "idempotency_key") true ∷ [];
    }
    ∷ record {
      table_name = codes "wallets";
      columns = wallets_columns;
      constraints =
          wallet_checks
          ++ (unique_constraint (codes "user_id" ∷ codes "currency" ∷ [])
                (codes "uq_wallet_user_currency")
              ∷ []);
      indexes = index_on (codes "ix_wallets_user_id") (codes "user_id") false ∷ [];
    }
    ∷ record {
      table_name = codes "users";
      columns = users_columns;
      constraints = primary_key_constraint (codes "id" ∷ []) ∷ [];
      indexes = index_on (codes "ix_users_email") (codes "email") true ∷ [];
    }
    ∷ []
