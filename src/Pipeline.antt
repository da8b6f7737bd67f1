-- ===== src/Pipeline.antt =====
-- From the outbox to the rollup: the rounds of the publisher (app/events/publisher.py), the topic that
-- they fill, and the loop of the analytics consumer on it (app/events/run_analytics_consumer.py). The
-- broker is a parameter, its reports round by round.
pub mod Backed
pub mod Rounds
pub mod Delivered
use distributed_wallet_ledge.Base.{ℕ, Bool, true, false, List, [], ◌∷◌, ◌++◌, map, if◌then◌else◌}
use distributed_wallet_ledge.Schema.{Payload, OutboxEvent}
use distributed_wallet_ledge.Database.{Db}
use distributed_wallet_ledge.Session.{with_session}
use distributed_wallet_ledge.Repositories.Wallets.Locks.{same}
use distributed_wallet_ledge.Repositories.Outbox.{oldest_unpublished}
use distributed_wallet_ledge.Publisher.{Message, message, Report, delivered, publish_round}
use distributed_wallet_ledge.Analytics.Loop.{Consumer, consume_analytics}

pub record Pipe : Type 0 where
  pub db : Db
  -- the messages that the broker has, in the order of their arrival
  pub topic : List Message

abbrev pub has_arrived : Report → Bool
has_arrived delivered = true
has_arrived _ = false

-- The messages of a batch that the broker takes, whatever becomes of the batch.
unfoldable pub arrived : (Message → Report) → List OutboxEvent → List Message
arrived deliver [] = []
arrived deliver (e ∷ batch) =
    let rest = arrived deliver batch in
    if has_arrived (deliver (message e)) then message e ∷ rest else rest

-- A round of `run_forever`, with what it sends.
unfoldable pub send_round : ℕ → ℕ → ℕ → (Message → Report) → Pipe → Pipe
unfolding arrived
send_round batch_size time now deliver p = record {
  db = (with_session same now (publish_round deliver batch_size time) p.db).1;
  topic = p.topic ++ arrived deliver (oldest_unpublished batch_size p.db);
}

unfoldable pub send_rounds : ℕ → ℕ → ℕ → List (Message → Report) → Pipe → Pipe
unfolding send_round
send_rounds batch_size time now [] p = p
send_rounds batch_size time now (deliver ∷ reports) p =
    send_rounds batch_size time now reports (send_round batch_size time now deliver p)

-- The analytics consumer reads the topic from its beginning.
unfoldable pub read_topic : ℕ → Pipe → Consumer
read_topic now p =
    consume_analytics now (map (λ m. m.value) p.topic) (record { db = p.db; committed = 0 })
