-- ===== src/Analytics.antt =====
-- `AnalyticsService` (app/services/analytics_service.py).
pub mod Rollup
pub mod Rows
pub mod Exact
pub mod Loop
pub mod Overlap
use distributed_wallet_ledge.Base.{ℕ, ⊤, Bool, true, false, Option, if◌then◌else◌}
use distributed_wallet_ledge.Base.Text.{Text, codes}
use distributed_wallet_ledge.Schema.{Payload}
use distributed_wallet_ledge.Database.{integrity}
use distributed_wallet_ledge.Session.{
  Exec, Result, ok, err, refused, pure, raise, attempt, commit, rollback, ◌>>=◌, ◌>>◌,
}
use distributed_wallet_ledge.Repositories.Processed.{is_processed, mark_processed}
use distributed_wallet_ledge.Repositories.Stats.{increment}

-- `CONSUMER_NAME`
abbrev pub consumer_name : Text
consumer_name = codes "analytics"

-- The end of `handle_event`: the handler of `IntegrityError`, or true.
abbrev pub after_commit : Result ⊤ → Exec Bool
after_commit (ok _) = pure true
after_commit (err (refused integrity)) = do rollback; pure false
after_commit (err e) = raise e

abbrev apply_event : Payload → Bool → Exec Bool
apply_event payload true = pure false
apply_event payload false = do
  mark_processed consumer_name payload.transaction_id
  increment payload.currency payload.type payload.amount
  outcome ← attempt commit
  after_commit outcome

-- `AnalyticsService.handle_event`
unfoldable pub handle_event : Payload → Exec Bool
unfolding is_processed mark_processed increment attempt commit rollback ◌>>=◌
handle_event payload = do
  seen ← is_processed consumer_name payload.transaction_id
  apply_event payload seen
