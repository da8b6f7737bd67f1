-- ===== src/Invariant/Conservation.antt =====
-- A transfer moves money between wallets and makes none.
use distributed_wallet_ledge.Base.{ℕ, ◌≡◌, sym, ap, ◌∙◌, ◌⊎◌, inl, inr, Option}
use distributed_wallet_ledge.Base.Int.{ℤ}
use distributed_wallet_ledge.Base.Text.{Text}
use distributed_wallet_ledge.Schema.{Transaction, Wallet}
use distributed_wallet_ledge.Schema.Requests.{TransferRequest}
use distributed_wallet_ledge.Database.{Db, set_wallet}
use distributed_wallet_ledge.Session.{Result, ok, err, with_session}
use distributed_wallet_ledge.Ledger.{Draws, transfer}
use distributed_wallet_ledge.Ledger.Posting.{find_self, find-id, find-set_wallet_ne}
use distributed_wallet_ledge.Ledger.Transfer.{TransferOutcome, transfer_outcome}
use distributed_wallet_ledge.Ledger.Transferred.{debited_wallet}
use distributed_wallet_ledge.Invariant.{IsUnique, total_balance}
use distributed_wallet_ledge.Invariant.Totals.{transferred_total}

module _ (draws : Draws) (id user now : ℕ) (others : Db → Db) (db : Db) (request : TransferRequest)
    (key : Option Text) (unique : IsUnique (others db).wallets) where
  abbrev total : Db → ℤ
  total d = total_balance d.wallets

  -- Whatever a transfer does, the sum of all balances at its end is the one at its start, or the one
  -- that other sessions have left while it waited, if wallet ids are unique there.
  pub transfer_conserves :
      let after = (with_session others now (transfer draws id user request key) db).1 in
      (total after ≡ total db) ⊎ (total after ≡ total (others db))
  transfer_conserves = from _ (transfer_outcome draws id user request key now others db)
    where
      from :
          (o : Result (Transaction × Option Wallet) × Db)
          → TransferOutcome draws id user request key now others db o
          → (total o.1 ≡ total db) ⊎ (total o.1 ≡ total (others db))
      from (r, after) (inl (_, _, e)) = inl (ap total e)
      from (r, after) (inr (_, inl (_, _, _, e))) = inl (ap total e)
      from (ok a, after) (inr (distinct, inr (_, d))) =
          let x = debited_wallet d.sender request.amount in
          let first = set_wallet x (others db).wallets in
          let other_row =
            find-set_wallet_ne request.recipient_wallet_id x (others db).wallets
              (λ e. distinct (sym (e ∙ find-id id d.sender (others db).wallets d.found_sender)))
            ∙ d.found_recipient in
          inr (
            ap total d.state
            ∙ transferred_total d.sender d.recipient request.amount (others db).wallets unique
                (find_self id d.sender (others db).wallets d.found_sender)
                (find_self request.recipient_wallet_id d.recipient first other_row))
      from (err e, after) (inr (_, inr (_, (e', _)))) = inr (ap total e')
