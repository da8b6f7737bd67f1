-- ===== src/Migrations/Head/Agrees.antt =====
-- The scripts up to the last one make the tables of the models.
use distributed_wallet_ledge.Base.{◌≡◌, refl, subst, some, ◌++◌}
use mathlib.Core.List.{Permᴰ}
use mathlib.Core.List.Permᴰ
use distributed_wallet_ledge.Base.Text.{text_eq}
use distributed_wallet_ledge.Base.Rows.{drop}
use distributed_wallet_ledge.Migrations.{apply, run, Catalog, Table}
use distributed_wallet_ledge.Migrations.Accounts.{
  users_columns, wallets_columns, upgrade_users, upgrade_wallets,
}
use distributed_wallet_ledge.Migrations.Entries.{
  transactions_columns, ledger_entries_columns, seq_column, upgrade_ledger, upgrade_idempotency_key,
  upgrade_seq,
}
use distributed_wallet_ledge.Migrations.Events.{
  outbox_events_columns, transaction_stats_columns, processed_events_columns, upgrade_outbox,
  upgrade_analytics,
}
use distributed_wallet_ledge.Migrations.Revisions.{
  upgrade_init, upgrade, upgrades, lineage, down_revision, add_seq_to_ledger_entries,
}
use distributed_wallet_ledge.Migrations.Models.{
  metadata, users_model, wallets_model, transactions_model, ledger_entries_model,
  outbox_events_model, transaction_stats_model, processed_events_model,
}
use distributed_wallet_ledge.Migrations.Head.{
  Matches, AllMatch, Unclaimed, ledger_references, wallet_checks, last_first, tables_at_head,
}

upgrades_at_head :
    (c : Catalog)
    → Unclaimed c
    → run (upgrades (lineage 8 add_seq_to_ledger_entries)) c ≡ some (tables_at_head ++ c)
unfolding tables_at_head run apply text_eq upgrades upgrade lineage down_revision upgrade_init
    upgrade_users upgrade_wallets upgrade_ledger upgrade_idempotency_key upgrade_seq upgrade_outbox
    upgrade_analytics users_columns wallets_columns transactions_columns ledger_entries_columns
    outbox_events_columns transaction_stats_columns processed_events_columns
upgrades_at_head c free =
    let (t1, (t2, (t3, (t4, (t5, (t6, (t7, _))))))) = free.no_table in
    let (r1, (r2, (r3, (r4, (r5, (r6, (r7, _))))))) = free.no_reference in
    let (i1, (i2, (i3, (i4, (i5, (i6, (i7, (i8, _)))))))) = free.no_index in
    rw (t1, r1, i1, t2, r2, i2, t3, r3, t4, r4, i3, i4, i5, t5, r5, i6, i7, t6, r6, t7, r7, i8)

same : (t u : Table) → t ≡ u → Matches t u
same t u e = subst (Matches t) e (record {
  same_name = refl;
  same_columns = Permᴰ.refl t.columns;
  same_constraints = Permᴰ.refl t.constraints;
  same_indexes = Permᴰ.refl t.indexes;
})

tables_at_head-AllMatch : AllMatch tables_at_head metadata
unfolding tables_at_head metadata users_model wallets_model transactions_model ledger_entries_model
    outbox_events_model transaction_stats_model processed_events_model users_columns wallets_columns
    transactions_columns ledger_entries_columns outbox_events_columns transaction_stats_columns
    processed_events_columns AllMatch
tables_at_head-AllMatch = (
  same _ _ refl,
  (
    same _ _ refl,
    (
      same _ _ refl,
      (
        record {
          same_name = refl;
          same_columns = Permᴰ.cons refl (last_first seq_column (drop 1 ledger_entries_columns));
          same_constraints = Permᴰ.cons refl (Permᴰ.cons refl (last_first _ ledger_references));
          same_indexes = Permᴰ.cons refl (Permᴰ.swap refl refl);
        },
        (
          record {
            same_name = refl;
            same_columns =
                Permᴰ.cons refl
                  (Permᴰ.cons refl (Permᴰ.cons refl (Permᴰ.cons refl (Permᴰ.swap refl refl))));
            same_constraints = Permᴰ.refl _;
            same_indexes = Permᴰ.refl _;
          },
          (
            record {
              same_name = refl;
              same_columns = Permᴰ.refl _;
              same_constraints =
                  Permᴰ.trans (last_first _ wallet_checks)
                    (Permᴰ.cons refl (Permᴰ.cons refl (Permᴰ.cons refl (Permᴰ.swap refl refl))));
              same_indexes = Permᴰ.refl _;
            },
            (same _ _ refl, tt),
          ),
        ),
      ),
    ),
  ),
)

-- On a catalog in which no table, reference or index uses a name of the program, the scripts up to
-- the last one all succeed, leave what was there, and put in front of it one table for each model,
-- with the same columns, constraints and indexes as the model declares, up to their order.
pub upgrades-metadata :
    (c : Catalog)
    → Unclaimed c
    → (d : Catalog) × (run (upgrades (lineage 8 add_seq_to_ledger_entries)) c ≡ some (d ++ c))
      × AllMatch d metadata
upgrades-metadata c free = (tables_at_head, upgrades_at_head c free, tables_at_head-AllMatch)
