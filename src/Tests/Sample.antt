-- ===== src/Tests/Sample.antt =====
-- A database with two users, a wallet each in one currency, and one deposit of 100 into the first.
use distributed_wallet_ledge.Base.{
  ℕ, refl, ◌==◌, Bool-cases, inl, inr, Option, some, [], ◌∷◌, arith,
}
use distributed_wallet_ledge.Base.Int.{pos, ◌+ℤ◌, ◌-ℤ◌}
use distributed_wallet_ledge.Base.Text.{Text, codes}
use distributed_wallet_ledge.Schema.{Payload, User, Wallet}
use distributed_wallet_ledge.Schema.Requests.{DepositRequest, WithdrawalRequest, TransferRequest}
use distributed_wallet_ledge.Database.{Db}
use distributed_wallet_ledge.Repositories.Wallets.{wallet_row}
use distributed_wallet_ledge.Repositories.Transactions.{completed_row}
use distributed_wallet_ledge.Ledger.{Draws}
use distributed_wallet_ledge.Ledger.Posting.{Posting, rows_of}
use distributed_wallet_ledge.Ledger.Deposit.{deposit_move}
use distributed_wallet_ledge.Invariant.{IsSound}

abbrev pub inr_code : Text
inr_code = codes "INR"

abbrev user : ℕ → Text → User
user id email = record {
  id = id;
  name = codes "A";
  email = email;
  password_hash = codes "h";
  created_at = 0;
}

abbrev pub alice : ℕ
alice = 7

abbrev pub alice_row : User
alice_row = user alice (codes "a@x")

abbrev pub bob : ℕ
bob = 8

abbrev pub alice_wallet : Wallet
alice_wallet = wallet_row 1 alice inr_code 0

abbrev pub bob_wallet : Wallet
bob_wallet = wallet_row 2 bob inr_code 0

abbrev pub first_draws : Draws
first_draws = record {
  transaction_id = 10;
  first_entry_id = 11;
  second_entry_id = 12;
  event_id = 13;
  occurred_at = 5;
}

abbrev pub draws : Draws
draws = record {
  transaction_id = 20;
  first_entry_id = 21;
  second_entry_id = 22;
  event_id = 23;
  occurred_at = 6;
}

abbrev pub later_draws : Draws
later_draws = record {
  transaction_id = 30;
  first_entry_id = 31;
  second_entry_id = 32;
  event_id = 33;
  occurred_at = 7;
}

abbrev rows : Posting
rows = rows_of first_draws (deposit_move alice_wallet (pos 100)) 1 5

abbrev pub funded_wallet : Wallet
funded_wallet = record alice_wallet { available_balance = pos 100 }

abbrev pub sample : Db
sample = record {
  users = user alice (codes "a@x") ∷ user bob (codes "b@x") ∷ [];
  wallets = funded_wallet ∷ bob_wallet ∷ [];
  transactions = completed_row rows.txn ∷ [];
  ledger_entries = rows.second ∷ rows.first ∷ [];
  outbox_events = rows.event ∷ [];
  transaction_stats = [];
  processed_events = [];
  next_seq = 3;
}

-- What the outbox says of the deposit.
abbrev pub first_payload : Payload
first_payload = rows.event.payload

abbrev pub same : Db → Db
same db = db

pub sample-IsSound : IsSound sample
unfolding ◌+ℤ◌ ◌-ℤ◌
sample-IsSound = record {
  balanced = (refl, (refl, tt));
  nonneg = omega arith;
  unique = (refl, (refl, tt));
  double_entry = λ t. elim (Bool-cases (10 == t)) [ inl e ↦ rw e | inr e ↦ rw e ];
  funded = refl;
  references = (refl, (refl, tt));
  positive = omega arith;
  sequenced = omega arith;
  completed = (refl, tt);
  announced = (refl, tt);
  founded = (refl, tt);
}

abbrev pub deposit_50 : DepositRequest
deposit_50 = record { amount = pos 50; currency = codes "inr" }

abbrev pub withdraw_30 : WithdrawalRequest
withdraw_30 = record { amount = pos 30; currency = codes "inr" }

abbrev pub transfer_40 : TransferRequest
transfer_40 = record { recipient_wallet_id = 2; amount = pos 40; currency = codes "inr" }

abbrev pub key : Option Text
key = some (codes "k-1")
