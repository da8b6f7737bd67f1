-- ===== src/Migrations/Undo/Scripts.antt =====
-- A whole script, and a list of scripts, is taken back from its end.
use distributed_wallet_ledge.Base.{
  ◌≡◌, refl, subst, sym, some, List, [], ◌∷◌, ◌++◌, Option-cases, inl, inr,
}
use mathlib.Core.List.{append-nil, append_assoc}
use distributed_wallet_ledge.Migrations.{Operation, apply, run, Catalog, ◌>>=◌}
use distributed_wallet_ledge.Migrations.Revisions.{
  Revision, upgrade, downgrade, upgrades, downgrades, upgrade_init, downgrade_init,
}
use distributed_wallet_ledge.Migrations.Accounts.{
  upgrade_users, downgrade_users, upgrade_wallets, downgrade_wallets,
}
use distributed_wallet_ledge.Migrations.Entries.{
  upgrade_ledger, downgrade_ledger, upgrade_idempotency_key, downgrade_idempotency_key, upgrade_seq,
  downgrade_seq,
}
use distributed_wallet_ledge.Migrations.Events.{
  upgrade_outbox, downgrade_outbox, upgrade_analytics, downgrade_analytics,
}
use distributed_wallet_ledge.Migrations.Undo.{inverse, undo, >>=_some, some_inj, apply_undone}

run-append :
    (os ps : List Operation) (c : Catalog) → run (os ++ ps) c ≡ (run os c >>= λ d. run ps d)
unfolding run
run-append [] ps c = refl
run-append (o ∷ os) ps c = elim (Option-cases (apply o c)) [
  | inl e ↦ rw e
  | inr (d, e) ↦ rw (e, run-append os ps d)
]

-- A whole script, taken back from its end.
run-undo :
    (os ps : List Operation) (c d : Catalog)
    → undo os ≡ some ps
    → run os c ≡ some d
    → run ps d ≡ some c
unfolding run undo
run-undo [] ps c d u h = subst (λ q. run q d ≡ some c) (some_inj u) (sym h)
run-undo (o ∷ os) ps c d u h =
    let (m, applied, after) = >>=_some (apply o c) (run os) d h in
    let (rest, u', rest_eq) =
      >>=_some (undo os) (λ rest. inverse o >>= λ p. some (rest ++ (p ∷ []))) ps u in
    let (p, inv, eq) = >>=_some (inverse o) (λ p. some (rest ++ (p ∷ []))) ps rest_eq in
    subst (λ q. run q d ≡ some c) (some_inj eq)
      (rw (
        run-append rest (p ∷ []) d,
        run-undo os rest m d u' after,
        apply_undone o p c m applied inv,
      ))

undo-append :
    (os os' ps ps' : List Operation)
    → undo os ≡ some ps
    → undo os' ≡ some ps'
    → undo (os ++ os') ≡ some (ps' ++ ps)
unfolding undo
undo-append [] os' ps ps' h h' =
    subst (λ q. undo os' ≡ some (ps' ++ q)) (some_inj h) (rw (append-nil ps') h')
undo-append (o ∷ os) os' ps ps' h h' =
    let (rest, u, rest_eq) =
      >>=_some (undo os) (λ rest. inverse o >>= λ p. some (rest ++ (p ∷ []))) ps h in
    let (p, inv, eq) = >>=_some (inverse o) (λ p. some (rest ++ (p ∷ []))) ps rest_eq in
    subst (λ q. undo (o ∷ os ++ os') ≡ some (ps' ++ q)) (some_inj eq)
      (rw (undo-append os os' rest ps' u h', inv, append_assoc ps' rest (p ∷ [])))

upgrade_undone : (r : Revision) → undo (upgrade r) ≡ some (downgrade r)
unfolding undo inverse upgrade downgrade upgrade_init downgrade_init upgrade_users downgrade_users
    upgrade_wallets downgrade_wallets upgrade_ledger downgrade_ledger upgrade_idempotency_key
    downgrade_idempotency_key upgrade_seq downgrade_seq upgrade_outbox downgrade_outbox
    upgrade_analytics downgrade_analytics
upgrade_undone Revision.init = refl
upgrade_undone Revision.create_users_table = refl
upgrade_undone Revision.create_wallets_table = refl
upgrade_undone Revision.create_transactions_and_ledger_entries = refl
upgrade_undone Revision.add_idempotency_key_to_transactions = refl
upgrade_undone Revision.create_outbox_events_table = refl
upgrade_undone Revision.create_analytics_and_processed_events = refl
upgrade_undone Revision.add_seq_to_ledger_entries = refl

undo-upgrades : (rs : List Revision) → undo (upgrades rs) ≡ some (downgrades rs)
unfolding undo upgrades downgrades
undo-upgrades [] = refl
undo-upgrades (r ∷ rs) =
    undo-append (upgrade r) (upgrades rs) (downgrade r) (downgrades rs) (upgrade_undone r)
      (undo-upgrades rs)

-- If the upgrades of a list of revisions, one after the other, succeed on a catalog, then their
-- downgrades in the opposite order succeed on the result and give back the catalog that was there.
pub downgrades-upgrades :
    (rs : List Revision) (c d : Catalog)
    → run (upgrades rs) c ≡ some d
    → run (downgrades rs) d ≡ some c
downgrades-upgrades rs c d h = run-undo (upgrades rs) (downgrades rs) c d (undo-upgrades rs) h
