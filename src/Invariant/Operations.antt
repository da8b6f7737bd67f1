-- ===== src/Invariant/Operations.antt =====
-- Every money operation keeps the invariant, on every branch.
use distributed_wallet_ledge.Base.{ℕ, ◌≢◌, refl, sym, subst, ap, ◌∙◌, ◌==◌, inl, inr, Option, ◌∷◌}
use distributed_wallet_ledge.Base.Int.{◌+ℤ◌, int_laws}
use distributed_wallet_ledge.Base.Text.{Text}
use distributed_wallet_ledge.Schema.{Wallet, Transaction, debit}
use distributed_wallet_ledge.Schema.Requests.{DepositRequest, WithdrawalRequest, TransferRequest}
use distributed_wallet_ledge.Database.{Db, set_wallet}
use distributed_wallet_ledge.Session.{Result, ok, err, with_session}
use distributed_wallet_ledge.Ledger.{Draws, deposit, withdraw, transfer, given}
use distributed_wallet_ledge.Ledger.Posting.{find_self, find-id, find-set_wallet_ne, rows_of}
use distributed_wallet_ledge.Reconciliation.{signed}
use distributed_wallet_ledge.Ledger.Deposit.{
  deposit_move, deposited_wallet, Deposited, DepositOutcome, deposit_outcome,
}
use distributed_wallet_ledge.Ledger.Replay.{WithReplay}
use distributed_wallet_ledge.Ledger.Withdraw.{
  withdrawal_move, withdrawn_wallet, Withdrawn, WithdrawalOutcome, withdraw_outcome,
}
use distributed_wallet_ledge.Ledger.Transfer.{TransferOutcome, transfer_outcome}
use distributed_wallet_ledge.Ledger.Transferred.{
  transfer_move, debited_wallet, credited_wallet, Transferred,
}
use distributed_wallet_ledge.Reconciliation.Correct.{IsBalanced}
use distributed_wallet_ledge.Invariant.{IsSound, total_balance, system_balance}
use distributed_wallet_ledge.Invariant.Rows.{
  All-find, exists-set_wallet, skip_leg, settle_leg, total_balance-set_wallet,
}
use distributed_wallet_ledge.Invariant.Posted.{posted-IsSound, balance_nonneg}
use distributed_wallet_ledge.Invariant.Totals.{
  IsUnique-set_wallet, IsNonneg-set_wallet, debited, funded_by, transferred_total,
}

module _ (draws : Draws) (id user : ℕ) (now : ℕ) (db : Db) (sound : IsSound db) where
  Deposited-IsSound :
      (request : DepositRequest) (answer : Transaction × Wallet) (db' : Db)
      → Deposited draws id user request now db answer db'
      → IsSound db'
  Deposited-IsSound request answer db' d =
      let w = d.wallet in
      let x = deposited_wallet w request.amount in
      let m = deposit_move w request.amount in
      let rows = rows_of draws m db.next_seq now in
      subst IsSound (sym d.state) (
        posted-IsSound draws m _ (set_wallet x db.wallets) db now sound d.accepted (omega int_laws)
          (λ k. exists-set_wallet k x db.wallets)
          (skip_leg rows.second (rows.first ∷ db.ledger_entries) _ refl (
            settle_leg rows.first db.ledger_entries x w db.wallets refl refl
              (All-find (IsBalanced db.ledger_entries) (λ r. r.id == id) db.wallets sound.balanced
                d.found)
              refl sound.balanced))
          (IsNonneg-set_wallet x db.wallets (balance_nonneg _ d.accepted.balance.0) sound.nonneg)
          (IsUnique-set_wallet x db.wallets sound.unique)
          (funded_by (total_balance (set_wallet x db.wallets)) (total_balance db.wallets)
            (system_balance db.ledger_entries) w.available_balance request.amount
            (signed debit request.amount)
            (total_balance-set_wallet x w db.wallets sound.unique
              (find_self id w db.wallets d.found))
            (omega int_laws) sound.funded))

  Withdrawn-IsSound :
      (request : WithdrawalRequest) (key : Option Text) (answer : Transaction × Option Wallet)
      (db' : Db)
      → Withdrawn draws id user request key now db answer db'
      → IsSound db'
  Withdrawn-IsSound request key answer db' d =
      let w = d.wallet in
      let x = withdrawn_wallet w request.amount in
      let m = withdrawal_move w request.amount key in
      let rows = rows_of draws m db.next_seq now in
      subst IsSound (sym d.state) (
        posted-IsSound draws m _ (set_wallet x db.wallets) db now sound d.accepted (omega int_laws)
          (λ k. exists-set_wallet k x db.wallets)
          (skip_leg rows.second (rows.first ∷ db.ledger_entries) _ refl (
            settle_leg rows.first db.ledger_entries x w db.wallets refl refl
              (All-find (IsBalanced db.ledger_entries) (λ r. r.id == id) db.wallets sound.balanced
                d.found)
              (debited w.available_balance request.amount) sound.balanced))
          (IsNonneg-set_wallet x db.wallets (balance_nonneg _ d.accepted.balance.0) sound.nonneg)
          (IsUnique-set_wallet x db.wallets sound.unique)
          (funded_by (total_balance (set_wallet x db.wallets)) (total_balance db.wallets)
            (system_balance db.ledger_entries) w.available_balance (signed debit request.amount)
            request.amount
            (total_balance-set_wallet x w db.wallets sound.unique
                (find_self id w db.wallets d.found)
              ∙ ap (λ b. total_balance db.wallets +ℤ b)
                  (debited w.available_balance request.amount))
            (omega int_laws) sound.funded))

  Transferred-IsSound :
      (request : TransferRequest) (key : Option Text) (answer : Transaction × Option Wallet)
      (db' : Db)
      → id ≢ request.recipient_wallet_id
      → Transferred draws id user request key now db answer db'
      → IsSound db'
  Transferred-IsSound request key answer db' distinct d =
      let w = d.sender in
      let r = d.recipient in
      let x = debited_wallet w request.amount in
      let y = credited_wallet r request.amount in
      let m = transfer_move w r request.amount key in
      let rows = rows_of draws m db.next_seq now in
      let first = set_wallet x db.wallets in
      let after_first =
        settle_leg rows.first db.ledger_entries x w db.wallets refl refl
          (All-find (IsBalanced db.ledger_entries) (λ q. q.id == id) db.wallets sound.balanced
            d.found_sender)
          (debited w.available_balance request.amount) sound.balanced in
      let other_row =
        find-set_wallet_ne request.recipient_wallet_id x db.wallets
          (λ e. distinct (sym (e ∙ find-id id w db.wallets d.found_sender)))
        ∙ d.found_recipient in
      subst IsSound (sym d.state) (
        posted-IsSound draws m _ (set_wallet y first) db now sound d.accepted (omega int_laws)
          (λ k. exists-set_wallet k y first ∙ exists-set_wallet k x db.wallets)
          (settle_leg rows.second (rows.first ∷ db.ledger_entries) y r first refl refl
            (All-find (IsBalanced (rows.first ∷ db.ledger_entries))
              (λ q. q.id == request.recipient_wallet_id) first after_first other_row)
            refl after_first)
          (IsNonneg-set_wallet y first (balance_nonneg _ d.accepted.balance.1.0)
            (IsNonneg-set_wallet x db.wallets (balance_nonneg _ d.accepted.balance.0) sound.nonneg))
          (IsUnique-set_wallet y first (IsUnique-set_wallet x db.wallets sound.unique))
          (ap (λ t. t +ℤ system_balance db.ledger_entries)
              (transferred_total w r request.amount db.wallets sound.unique
                (find_self id w db.wallets d.found_sender)
                (find_self request.recipient_wallet_id r first other_row))
            ∙ sound.funded))

module _ (draws : Draws) (id user : ℕ) (now : ℕ) (others : Db → Db) (db : Db)
    (other_sound : IsSound (others db)) where
  after_deposit :
      (request : DepositRequest) (o : Result (Transaction × Wallet) × Db)
      → DepositOutcome draws id user request now (others db) o
      → IsSound o.1
  after_deposit request (ok answer, db') h =
      Deposited-IsSound draws id user now (others db) other_sound request answer db' h
  after_deposit request (err e, db') h = subst IsSound (sym h.0) other_sound

  -- From a sound database a deposit ends in a sound database, whether it succeeds or raises, if
  -- what other sessions commit meanwhile is sound.
  pub deposit-IsSound :
      (request : DepositRequest)
      → IsSound (with_session others now (deposit draws id user request) db).1
  deposit-IsSound request =
      after_deposit request _ (deposit_outcome draws id user request now others db)

  module _ (sound : IsSound db) where
    after_withdrawal :
        (request : WithdrawalRequest) (key : Option Text)
        (o : Result (Transaction × Option Wallet) × Db)
        → WithReplay
            (given key)
            id
            db
            (WithdrawalOutcome draws id user request key now (others db))
            o
        → IsSound o.1
    after_withdrawal request key (r, db') (inl (t, _, _, e)) = subst IsSound (sym e) sound
    after_withdrawal request key (ok answer, db') (inr (_, h)) =
        Withdrawn-IsSound draws id user now (others db) other_sound request key answer db' h
    after_withdrawal request key (err e, db') (inr (_, h)) = subst IsSound (sym h.0) other_sound

    -- From a sound database a withdrawal, a replay included, ends in a sound database, whether it
    -- succeeds or raises, if what other sessions commit meanwhile is sound.
    pub withdraw-IsSound :
        (request : WithdrawalRequest) (key : Option Text)
        → IsSound (with_session others now (withdraw draws id user request key) db).1
    withdraw-IsSound request key =
        after_withdrawal request key _ (withdraw_outcome draws id user request key now others db)

    after_transfer :
        (request : TransferRequest) (key : Option Text)
        (o : Result (Transaction × Option Wallet) × Db)
        → TransferOutcome draws id user request key now others db o
        → IsSound o.1
    after_transfer request key (r, db') (inl (_, _, e)) = subst IsSound (sym e) sound
    after_transfer request key (r, db') (inr (_, inl (t, _, _, e))) = subst IsSound (sym e) sound
    after_transfer request key (ok answer, db') (inr (distinct, inr (_, h))) =
        Transferred-IsSound draws id user now (others db) other_sound request key answer db'
          distinct h
    after_transfer request key (err e, db') (inr (_, inr (_, h))) =
        subst IsSound (sym h.0) other_sound

    -- From a sound database a transfer, a replay included, ends in a sound database, whether it
    -- succeeds or raises, if what other sessions commit meanwhile is sound.
    pub transfer-IsSound :
        (request : TransferRequest) (key : Option Text)
        → IsSound (with_session others now (transfer draws id user request key) db).1
    transfer-IsSound request key =
        after_transfer request key _ (transfer_outcome draws id user request key now others db)
