-- ===== src/Ledger/Transferred.antt =====
-- What a transfer may do: the failures, in the order of the guards, and the rows that it writes.
use distributed_wallet_ledge.Base.{ℕ, List, ◌≡◌, ◌≢◌, ◌⊎◌, Option, none, some, [], ◌∷◌}
use distributed_wallet_ledge.Base.Int.{ℤ, ◌+ℤ◌, ◌-ℤ◌, ◌≤ℤ◌, ◌<ℤ◌}
use distributed_wallet_ledge.Base.Text.{Text, upper}
use distributed_wallet_ledge.Schema.{Wallet, Transaction, transfer as transfer_type, credit, debit}
use distributed_wallet_ledge.Schema.Requests.{TransferRequest}
use distributed_wallet_ledge.Database.{Db, Violation, find_wallet, set_wallet}
use distributed_wallet_ledge.Session.{
  Error, Result, ok, err, refused, wallet_not_found, wallet_access_denied, currency_mismatch,
  insufficient_funds, recipient_not_found,
}
use distributed_wallet_ledge.Repositories.Transactions.{opened, completed_row}
use distributed_wallet_ledge.Ledger.{Draws}
use distributed_wallet_ledge.Ledger.Posting.{Move, rows_of, posted, Refusal, IsAccepted}

-- The two wallets that a transfer leaves.
abbrev pub debited_wallet : Wallet → ℤ → Wallet
debited_wallet sender amount = record sender {
  available_balance = sender.available_balance -ℤ amount;
}

abbrev pub credited_wallet : Wallet → ℤ → Wallet
credited_wallet recipient amount = record recipient {
  available_balance = recipient.available_balance +ℤ amount;
}

-- What a transfer writes: money out of the sender, into the recipient.
abbrev pub transfer_move : Wallet → Wallet → ℤ → Option Text → Move
transfer_move sender recipient amount key = record {
  type = transfer_type;
  currency = sender.currency;
  key = key;
  amount = amount;
  first_type = debit;
  first_wallet = some sender.id;
  first_account = none;
  second_type = credit;
  second_wallet = some recipient.id;
  second_account = none;
  owner = sender.id;
  counterparty = some recipient.id;
}

-- The wallets table after a transfer.
abbrev pub transferred_wallets : Wallet → Wallet → ℤ → List Wallet → List Wallet
transferred_wallets sender recipient amount wallets =
    set_wallet (credited_wallet recipient amount)
      (set_wallet (debited_wallet sender amount) wallets)

module _ (draws : Draws) (sender_id requester_id : ℕ) (request : TransferRequest)
    (key : Option Text) (now : ℕ) where
  -- The transfer goes through: what the guards found, and the new state.
  pub record Transferred (db : Db) (answer : Transaction × Option Wallet) (db' : Db) : Type 0 where
    pub sender : Wallet
    pub recipient : Wallet
    pub found_sender : find_wallet sender_id db ≡ some sender
    pub found_recipient : find_wallet request.recipient_wallet_id db ≡ some recipient
    pub owned : sender.user_id ≡ requester_id
    pub currency : sender.currency ≡ upper request.currency
    pub same_currency : recipient.currency ≡ sender.currency
    pub funds : request.amount ≤ℤ sender.available_balance
    pub accepted :
        IsAccepted
          (rows_of draws (transfer_move sender recipient request.amount key) db.next_seq now)
          ((sender.available_balance -ℤ request.amount)
            ∷ (recipient.available_balance +ℤ request.amount)
            ∷ [])
          db
    pub answered : answer ≡ (
      completed_row (opened draws.transaction_id transfer_type sender.currency key now),
      some (debited_wallet sender request.amount),
    )
    pub state :
        db'
        ≡ posted
            (rows_of draws (transfer_move sender recipient request.amount key) db.next_seq now)
            (transferred_wallets sender recipient request.amount db.wallets)
            db

  -- The transfer raises `e`: the first condition of the code that fails.
  pub data TransferFailure (db : Db) (e : Error) : Type 0 where
    missing :
        find_wallet sender_id db ≡ none → e ≡ wallet_not_found sender_id → TransferFailure db e
    foreign :
        (w : Wallet)
        → find_wallet sender_id db ≡ some w
        → w.user_id ≢ requester_id
        → e ≡ wallet_access_denied sender_id
        → TransferFailure db e
    no_recipient :
        (w : Wallet)
        → find_wallet sender_id db ≡ some w
        → w.user_id ≡ requester_id
        → find_wallet request.recipient_wallet_id db ≡ none
        → e ≡ recipient_not_found request.recipient_wallet_id
        → TransferFailure db e
    mismatch :
        (w r : Wallet)
        → find_wallet sender_id db ≡ some w
        → w.user_id ≡ requester_id
        → find_wallet request.recipient_wallet_id db ≡ some r
        → (w.currency ≢ upper request.currency) ⊎ (r.currency ≢ w.currency)
        → e ≡ currency_mismatch
        → TransferFailure db e
    short :
        (w r : Wallet)
        → find_wallet sender_id db ≡ some w
        → w.user_id ≡ requester_id
        → find_wallet request.recipient_wallet_id db ≡ some r
        → w.currency ≡ upper request.currency
        → r.currency ≡ w.currency
        → w.available_balance <ℤ request.amount
        → e ≡ insufficient_funds sender_id
        → TransferFailure db e
    rejected :
        (w r : Wallet) (v : Violation)
        → find_wallet sender_id db ≡ some w
        → w.user_id ≡ requester_id
        → find_wallet request.recipient_wallet_id db ≡ some r
        → w.currency ≡ upper request.currency
        → r.currency ≡ w.currency
        → request.amount ≤ℤ w.available_balance
        → Refusal
            (rows_of draws (transfer_move w r request.amount key) db.next_seq now)
            ((w.available_balance -ℤ request.amount) ∷ (r.available_balance +ℤ request.amount) ∷ [])
            db
            v
        → e ≡ refused v
        → TransferFailure db e

  -- What the locked part of a transfer may do to the committed database `db`.
  abbrev pub LockedTransferOutcome : Db → Result (Transaction × Option Wallet) × Db → Type 0
  LockedTransferOutcome db (ok answer, db') = Transferred db answer db'
  LockedTransferOutcome db (err e, db') = (db' ≡ db) × TransferFailure db e
