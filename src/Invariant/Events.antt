-- ===== src/Invariant/Events.antt =====
-- The publisher and the analytics consumer keep the invariant.
use distributed_wallet_ledge.Base.{
  ℕ, ◌≡◌, refl, sym, subst, ◌∙◌, ◌==◌, inl, inr, Bool, true, Bool-cases, Option, some, none, List,
  [], ◌∷◌,
}
use distributed_wallet_ledge.Base.Rows.{All, exists}
use distributed_wallet_ledge.Schema.{
  LedgerEntry, ProcessedEvent, OutboxEvent, Transaction, TransactionStat, Payload,
}
use distributed_wallet_ledge.Database.{Db, wallet_exists}
use distributed_wallet_ledge.Session.{Result, with_session}
use distributed_wallet_ledge.Repositories.Wallets.Locks.{same}
use distributed_wallet_ledge.Repositories.Stats.{find_stat, store, set_stat}
use distributed_wallet_ledge.Repositories.Processed.{inbox_row, add_processed}
use distributed_wallet_ledge.Repositories.Outbox.{oldest_unpublished}
use distributed_wallet_ledge.Publisher.{Message, Report, publish_round, delivery_errors}
use distributed_wallet_ledge.Publisher.Delivery.{in_batch, marked, with_marked, publish_round_lem}
use distributed_wallet_ledge.Analytics.{handle_event, consumer_name}
use distributed_wallet_ledge.Analytics.Rollup.{
  Handling, duplicate, raced, too_large, applied, counted_in, next_stat, handle_event_outcome,
}
use distributed_wallet_ledge.Invariant.{IsSound, HasEvent, HasTransaction}

-- The references of the legs depend on the wallets alone.
same_references :
    (entries : List LedgerEntry) (db db' : Db)
    → db'.wallets ≡ db.wallets
    → All (λ e. wallet_exists e.wallet_id db ≡ true) entries
    → All (λ e. wallet_exists e.wallet_id db' ≡ true) entries
same_references [] db db' e h = tt
same_references (x ∷ entries) db db' e h =
    (there x.wallet_id h.0, same_references entries db db' e h.1)
  where
    there : (o : Option ℕ) → wallet_exists o db ≡ true → wallet_exists o db' ≡ true
    there none h = refl
    there (some id) h = rw (e, h)

module _ (time : ℕ) (batch : List OutboxEvent) where
  exists-marked :
      (id : ℕ) (events : List OutboxEvent)
      → exists (λ e. e.aggregate_id == id) (marked time batch events)
        ≡ exists (λ e. e.aggregate_id == id) events
  exists-marked id [] = refl
  exists-marked id (e ∷ events) = elim (Bool-cases (in_batch e.id batch)) [
    | inl h ↦ rw (h, exists-marked id events)
    | inr h ↦ rw (h, exists-marked id events)
  ]

  still_announced :
      (events : List OutboxEvent) (ts : List Transaction)
      → All (HasEvent events) ts
      → All (HasEvent (marked time batch events)) ts
  still_announced events [] h = tt
  still_announced events (t ∷ ts) h =
      (exists-marked t.id events ∙ h.0, still_announced events ts h.1)

  still_founded :
      (ts : List Transaction) (events : List OutboxEvent)
      → All (HasTransaction ts) events
      → All (HasTransaction ts) (marked time batch events)
  still_founded ts [] h = tt
  still_founded ts (e ∷ events) h = elim (Bool-cases (in_batch e.id batch)) [
    | inl b ↦ rw b (h.0, still_founded ts events h.1)
    | inr b ↦ rw b (h.0, still_founded ts events h.1)
  ]

  with_marked-IsSound : (db : Db) → IsSound db → IsSound (with_marked time batch db)
  with_marked-IsSound db sound = record {
    balanced = sound.balanced;
    nonneg = sound.nonneg;
    unique = sound.unique;
    double_entry = sound.double_entry;
    funded = sound.funded;
    references =
        same_references db.ledger_entries db (with_marked time batch db) refl sound.references;
    positive = sound.positive;
    sequenced = sound.sequenced;
    completed = sound.completed;
    announced = still_announced db.outbox_events db.transactions sound.announced;
    founded = still_founded db.transactions db.outbox_events sound.founded;
  }

-- What a round leaves, for any property of the database that marking keeps.
pub publish_round_keeps :
    (P : Db → Type 0) (deliver : Message → Report) (batch_size time now : ℕ) (db : Db)
    → P db
    → ((batch : List OutboxEvent) → P (with_marked time batch db))
    → P (with_session same now (publish_round deliver batch_size time) db).1
publish_round_keeps P deliver batch_size time now db h marks =
    let batch = oldest_unpublished batch_size db in
    elim (Bool-cases (delivery_errors deliver batch)) [
      | inl e ↦ rw (publish_round_lem deliver batch_size time now db, e) h
      | inr e ↦ rw (publish_round_lem deliver batch_size time now db, e) (marks batch)
    ]

-- A round of the publisher keeps the invariant.
pub publish_round-IsSound :
    (deliver : Message → Report) (batch_size time now : ℕ) (db : Db)
    → IsSound db
    → IsSound (with_session same now (publish_round deliver batch_size time) db).1
publish_round-IsSound deliver batch_size time now db sound =
    publish_round_keeps IsSound deliver batch_size time now db sound
      (λ batch. with_marked-IsSound time batch db sound)

-- What a delivery leaves, for any property of the database that the rollup and the inbox do not
-- touch.
pub handle_event_keeps :
    (P : Db → Type 0) (payload : Payload) (now : ℕ) (others : Db → Db) (db : Db)
    → P db
    → P (others db)
    → P (counted_in payload (others db))
    → P (with_session others now (handle_event payload) db).1
handle_event_keeps P payload now others db h h' counted =
    from (with_session others now (handle_event payload) db)
      (handle_event_outcome payload now others db)
  where
    from : (o : Result Bool × Db) → Handling payload db (others db) o.0 o.1 → P o.1
    from (r, after) (duplicate _ _ e) = subst P (sym e) h
    from (r, after) (raced _ _ _ e) = subst P (sym e) h'
    from (r, after) (too_large _ _ _ _ _ e) = subst P (sym e) h'
    from (r, after) (applied _ _ _ _ e) = subst P (sym e) counted

with_rollup-IsSound :
    (stats : List TransactionStat) (inbox : List ProcessedEvent) (db : Db)
    → IsSound db
    → IsSound (record db { transaction_stats = stats; processed_events = inbox })
with_rollup-IsSound stats inbox db sound = record {
  balanced = sound.balanced;
  nonneg = sound.nonneg;
  unique = sound.unique;
  double_entry = sound.double_entry;
  funded = sound.funded;
  references =
      same_references db.ledger_entries db
        (record db { transaction_stats = stats; processed_events = inbox }) refl sound.references;
  positive = sound.positive;
  sequenced = sound.sequenced;
  completed = sound.completed;
  announced = sound.announced;
  founded = sound.founded;
}

-- The events of the rollup in one form, whether a row is inserted or updated.
pub counted_in_keeps :
    (P : Db → Type 0) (payload : Payload) (db : Db)
    → ((stats : List TransactionStat) (inbox : List ProcessedEvent)
        → P (record db { transaction_stats = stats; processed_events = inbox }))
    → P (counted_in payload db)
counted_in_keeps P payload db h =
    stored (find_stat payload.currency payload.type db) (next_stat payload db)
  where
    stored :
        (o : Option TransactionStat) (s : TransactionStat)
        → P (store o s (add_processed (inbox_row consumer_name payload.transaction_id) db))
    stored none s =
        h (s ∷ db.transaction_stats)
          (inbox_row consumer_name payload.transaction_id ∷ db.processed_events)
    stored (some old) s =
        h (set_stat s db.transaction_stats)
          (inbox_row consumer_name payload.transaction_id ∷ db.processed_events)

-- So does a delivery to the analytics consumer, if what other sessions commit meanwhile does.
pub handle_event-IsSound :
    (payload : Payload) (now : ℕ) (others : Db → Db) (db : Db)
    → IsSound db
    → IsSound (others db)
    → IsSound (with_session others now (handle_event payload) db).1
handle_event-IsSound payload now others db sound sound' =
    handle_event_keeps IsSound payload now others db sound sound' (
      counted_in_keeps IsSound payload (others db)
        (λ stats inbox. with_rollup-IsSound stats inbox (others db) sound'))
