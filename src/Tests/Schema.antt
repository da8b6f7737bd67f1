-- ===== src/Tests/Schema.antt =====
-- The migration scripts on an empty catalog, and on one that holds a table of someone else.
use distributed_wallet_ledge.Base.{◌≡◌, refl, false, Option, some, none, [], ◌∷◌, ◌++◌}
use distributed_wallet_ledge.Base.Text.{codes, text_eq}
use distributed_wallet_ledge.Migrations.{Catalog, Table, uuid, run, apply}
use distributed_wallet_ledge.Migrations.Columns.{column}
use distributed_wallet_ledge.Migrations.Accounts.{
  users_columns, upgrade_users, wallets_columns, upgrade_wallets,
}
use distributed_wallet_ledge.Migrations.Revisions.{
  create_users_table, create_wallets_table, upgrade, upgrades, downgrades, lineage,
  add_seq_to_ledger_entries,
}
use distributed_wallet_ledge.Migrations.Models.{metadata}
use distributed_wallet_ledge.Migrations.Undo.Scripts.{downgrades-upgrades}
use distributed_wallet_ledge.Migrations.Head.{AllMatch, Unclaimed}
use distributed_wallet_ledge.Migrations.Head.Agrees.{upgrades-metadata}

abbrev other_table : Table
other_table = record {
  table_name = codes "notes";
  columns = column (codes "id") uuid false ∷ [];
  constraints = [];
  indexes = [];
}

abbrev others_catalog : Catalog
others_catalog = other_table ∷ []

abbrev first_two : Option Catalog
first_two = run (upgrades (create_users_table ∷ create_wallets_table ∷ [])) others_catalog

abbrev upgraded : Catalog
upgraded = elim first_two [ none ↦ [] | some c ↦ c ]

downgrades-upgrades_example :
    run (downgrades (create_users_table ∷ create_wallets_table ∷ [])) upgraded ≡ some others_catalog
unfolding run apply upgrades upgrade upgrade_users upgrade_wallets users_columns wallets_columns
    text_eq
downgrades-upgrades_example =
    downgrades-upgrades (create_users_table ∷ create_wallets_table ∷ []) others_catalog upgraded
      refl

others-Unclaimed : Unclaimed others_catalog
unfolding text_eq
others-Unclaimed = record {
  no_table = (refl, (refl, (refl, (refl, (refl, (refl, (refl, tt)))))));
  no_reference = (refl, (refl, (refl, (refl, (refl, (refl, (refl, tt)))))));
  no_index = (refl, (refl, (refl, (refl, (refl, (refl, (refl, (refl, tt))))))));
}

upgrades-metadata_example :
    (d : Catalog) × (run (upgrades (lineage 8 add_seq_to_ledger_entries)) others_catalog
      ≡ some (d ++ others_catalog))
    × AllMatch d metadata
upgrades-metadata_example = upgrades-metadata others_catalog others-Unclaimed
