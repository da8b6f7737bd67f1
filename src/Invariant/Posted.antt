-- ===== src/Invariant/Posted.antt =====
-- A money operation that the database accepted keeps the invariant, if the wallets that it leaves
-- agree with its legs.
use distributed_wallet_ledge.Base.{
  ℕ, ◌≡◌, refl, sym, ap, ◌∙◌, ◌==◌, ==_refl, Bool, true, ◌||◌, Bool-cases, inl, inr, Option, none,
  some, List, arith,
}
use distributed_wallet_ledge.Base.Int.{ℤ, pos, ◌+ℤ◌, ◌≤ℤ◌, ◌<ℤ◌, cancels}
use distributed_wallet_ledge.Base.Rows.{All, exists}
use distributed_wallet_ledge.Schema.{Wallet, LedgerEntry}
use distributed_wallet_ledge.Database.{Db, wallet_exists, entry_violation, balance_violation}
use distributed_wallet_ledge.Reconciliation.{signed}
use distributed_wallet_ledge.Reconciliation.Correct.{IsBalanced}
use distributed_wallet_ledge.Ledger.{Draws}
use distributed_wallet_ledge.Ledger.Posting.{
  Move, Posting, rows_of, posted, half_posted, IsAccepted,
}
use distributed_wallet_ledge.Repositories.Transactions.{add_transaction, completed_row}
use distributed_wallet_ledge.Invariant.{
  IsSound, IsUnique, transaction_net, total_balance, system_balance, HasEvent, HasTransaction,
}
use distributed_wallet_ledge.Invariant.Rows.{All-map}

entry_refers :
    (e : LedgerEntry) (db : Db) → entry_violation e db ≡ none → wallet_exists e.wallet_id db ≡ true
unfolding entry_violation
entry_refers e db h = ground arith

entry_positive : (e : LedgerEntry) (db : Db) → entry_violation e db ≡ none → pos 0 <ℤ e.amount
unfolding entry_violation
entry_positive e db h = ground arith

pub balance_nonneg : (b : ℤ) → balance_violation b ≡ none → pos 0 ≤ℤ b
unfolding balance_violation
balance_nonneg b h = ground arith

or_true : (a b : Bool) → b ≡ true → (a || b) ≡ true
or_true a b h = ground arith

module _ (draws : Draws) (m : Move) (balances : List ℤ) (wallets : List Wallet) (db : Db) (now : ℕ)
    (sound : IsSound db) where
  abbrev p : Posting
  p = rows_of draws m db.next_seq now

  abbrev after : Db
  after = posted p wallets db

  net_stays :
      signed m.first_type m.amount +ℤ signed m.second_type m.amount ≡ pos 0
      → (t : ℕ) → transaction_net t after.ledger_entries ≡ pos 0
  net_stays cancel t = elim (Bool-cases (draws.transaction_id == t)) [
    | inl e ↦ rw e (
        cancels (signed m.first_type m.amount) (signed m.second_type m.amount) _ cancel
        ∙ sound.double_entry t)
    | inr e ↦ rw e (sound.double_entry t)
  ]

  event_of_new : HasEvent after.outbox_events (completed_row p.txn)
  event_of_new = rw (==_refl draws.transaction_id)

  transaction_of_new : HasTransaction after.transactions p.event
  transaction_of_new = rw (==_refl draws.transaction_id)

  module _ (accepted : IsAccepted p balances db)
      (cancel : signed m.first_type m.amount +ℤ signed m.second_type m.amount ≡ pos 0)
      (same_ids : (k : ℕ)
        → exists (λ r. r.id == k) wallets ≡ exists (λ r. r.id == k) db.wallets) where
    refers :
        (d : Db) (o : Option ℕ)
        → d.wallets ≡ db.wallets
        → wallet_exists o d ≡ true
        → wallet_exists o after ≡ true
    refers d none e h = refl
    refers d (some k) e h = same_ids k ∙ ap (exists (λ r. r.id == k)) (sym e) ∙ h

    pub posted-IsSound :
        All (IsBalanced after.ledger_entries) wallets
        → All (λ w. pos 0 ≤ℤ w.available_balance) wallets
        → IsUnique wallets
        → total_balance wallets +ℤ system_balance after.ledger_entries ≡ pos 0
        → IsSound after
    posted-IsSound balanced nonneg unique funded = record {
      funded = funded;
      balanced = balanced;
      nonneg = nonneg;
      unique = unique;
      double_entry = net_stays cancel;
      references = (
        refers (half_posted p db) p.second.wallet_id refl
            (entry_refers p.second (half_posted p db) accepted.written.second_leg),
        (
          refers (add_transaction p.txn db) p.first.wallet_id refl
              (entry_refers p.first (add_transaction p.txn db) accepted.written.first_leg),
          All-map _ _ db.ledger_entries (λ e h. refers db e.wallet_id refl h) sound.references,
        ),
      );
      positive = (
        entry_positive p.second (half_posted p db) accepted.written.second_leg,
        (
          entry_positive p.first (add_transaction p.txn db) accepted.written.first_leg,
          sound.positive,
        ),
      );
      sequenced = (omega arith, (omega arith, sound.sequenced));
      completed = (refl, sound.completed);
      announced =
          (event_of_new, All-map _ _ db.transactions (λ t h. or_true _ _ h) sound.announced);
      founded =
          (transaction_of_new, All-map _ _ db.outbox_events (λ e h. or_true _ _ h) sound.founded);
    }
