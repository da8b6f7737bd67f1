-- ===== src/Tests/Requests.antt =====
-- A request through the middleware, a registration with its login, a page, and the reconciliation job.
use distributed_wallet_ledge.Base.{◌≡◌, refl, some, none, [], ◌∷◌}
use distributed_wallet_ledge.Base.Text.{codes, text_eq}
use distributed_wallet_ledge.Observability.{
  LogRecord, Process, Request, HttpResponse, Called, returned, Measured, Json, string, first_text,
  emit, id_of, dispatch,
}
use distributed_wallet_ledge.Observability.Traced.{entry}
use distributed_wallet_ledge.Observability.Requests.{
  Dispatched, tagged, with_id, dispatch_outcome, dispatch_traced,
}

abbrev idle : Process
idle = record { request_id_var = none; log = []; request_count = []; request_latency = [] }

abbrev drawn : Measured
drawn = record { minted = codes "f00d"; duration = 12; rounded = 12; time = codes "t1" }

abbrev balance_request : Request
balance_request = record {
  request_method = codes "GET";
  url_path = codes "/api/v1/wallets/1/balance";
  request_id_header = some (codes "abc");
  route = some (codes "/api/v1/wallets/{wallet_id}/balance");
}

abbrev fine : HttpResponse
fine = record { status_code = 200; response_id_header = none }

abbrev note : LogRecord
note = record {
  levelname = codes "INFO";
  name = codes "app";
  text = codes "hit";
  request_id = none;
  method = none;
  path = none;
  status = none;
  duration_ms = none;
  exc_info = none;
}

abbrev application : Request → Process → Called × Process
application request p = (returned fine, emit (codes "t0") note p)

dispatch_outcome_example :
    let (called, p') =
      application balance_request (with_id (some (id_of drawn balance_request)) idle) in
    let (r, after) = dispatch drawn application balance_request idle in
    Dispatched drawn balance_request idle p' called r after
dispatch_outcome_example = dispatch_outcome drawn balance_request idle application

dispatch_traced_example :
    let (called, after) =
      dispatch drawn (λ _ q. (returned fine, emit (codes "t0") note q)) balance_request idle in
    (called ≡ returned (tagged (id_of drawn balance_request) fine))
    × (inner : Json) × (access : Json) × (after.log ≡ access ∷ inner ∷ [])
    × (entry (codes "request_id") inner ≡ some (string (id_of drawn balance_request)))
    × (entry (codes "request_id") access ≡ none)
unfolding id_of first_text text_eq
dispatch_traced_example =
    dispatch_traced drawn balance_request idle note (codes "t0") fine refl refl (λ e. cc e) refl
