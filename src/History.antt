-- ===== src/History.antt =====
-- Histories: the requests of all users, the rounds of the outbox publisher and the deliveries to the
-- analytics consumer, in the order in which they commit, with what other sessions commit while one
-- waits as a history of its own.
pub mod Sound
pub mod Keys
use distributed_wallet_ledge.Base.{ℕ, ◌≡◌, Option, [], none}
use distributed_wallet_ledge.Base.Text.{Text}
use distributed_wallet_ledge.Schema.Requests.{
  DepositRequest, WithdrawalRequest, TransferRequest, WalletCreate, UserCreate,
}
use distributed_wallet_ledge.Database.{Db}
use distributed_wallet_ledge.Session.{with_session}
use distributed_wallet_ledge.Users.{register}
use distributed_wallet_ledge.WalletService.{create_wallet}
use distributed_wallet_ledge.Schema.{Payload}
use distributed_wallet_ledge.Repositories.Wallets.Locks.{same}
use distributed_wallet_ledge.Publisher.{Message, Report, publish_round}
use distributed_wallet_ledge.Analytics.{handle_event}
use distributed_wallet_ledge.Ledger.{Draws, deposit, withdraw, transfer}

-- The tables after the migrations.
abbrev pub empty : Db
empty = record {
  users = [];
  wallets = [];
  transactions = [];
  ledger_entries = [];
  outbox_events = [];
  transaction_stats = [];
  processed_events = [];
  next_seq = 1;
}

mutual
  -- One request, round or delivery, from the database at its start to the one at its end. `others` is any function
  -- that takes the database at its start to one that a history reaches from there.
  pub data Step : Db → Db → Type 0 where
    registers :
        {db db' : Db} (others : Db → Db) (now : ℕ) (hash_password : Text → Text) (id : ℕ)
        (request : UserCreate)
        → History db (others db)
        → db' ≡ (with_session others now (register hash_password id request) db).1
        → Step db db'
    opens :
        {db db' : Db} (others : Db → Db) (now id owner_id : ℕ) (request : WalletCreate)
        → History db (others db)
        → db' ≡ (with_session others now (create_wallet id owner_id request) db).1
        → Step db db'
    deposits :
        {db db' : Db} (others : Db → Db) (now : ℕ) (draws : Draws) (id user : ℕ)
        (request : DepositRequest)
        → History db (others db)
        → db' ≡ (with_session others now (deposit draws id user request) db).1
        → Step db db'
    withdraws :
        {db db' : Db} (others : Db → Db) (now : ℕ) (draws : Draws) (id user : ℕ)
        (request : WithdrawalRequest) (key : Option Text)
        → History db (others db)
        → db' ≡ (with_session others now (withdraw draws id user request key) db).1
        → Step db db'
    transfers :
        {db db' : Db} (others : Db → Db) (now : ℕ) (draws : Draws) (id user : ℕ)
        (request : TransferRequest) (key : Option Text)
        → History db (others db)
        → db' ≡ (with_session others now (transfer draws id user request key) db).1
        → Step db db'
    publishes :
        {db db' : Db} (deliver : Message → Report) (batch_size time now : ℕ)
        → db' ≡ (with_session same now (publish_round deliver batch_size time) db).1
        → Step db db'
    counts :
        {db db' : Db} (others : Db → Db) (now : ℕ) (payload : Payload)
        → History db (others db)
        → db' ≡ (with_session others now (handle_event payload) db).1
        → Step db db'

  pub data History : Db → Db → Type 0 where
    here : {db : Db} → History db db
    next : {db db' db'' : Db} → History db db' → Step db' db'' → History db db''
