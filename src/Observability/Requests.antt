-- ===== src/Observability/Requests.antt =====
-- `ObservabilityMiddleware.dispatch` on every branch.
use distributed_wallet_ledge.Base.{
  ◌≡◌, ◌≢◌, refl, ap, ◌∙◌, ℕ, true, false, Bool-cases, inl, inr, Option, none, some, [], ◌∷◌,
}
use mathlib.Core.Option as Option
use distributed_wallet_ledge.Base.Text.{Text, codes, text_eq}
use distributed_wallet_ledge.Observability.{
  LogRecord, string, number, Json, first_text, format, Process, Request, emit, HttpResponse, Called,
  returned, raised, Measured, label_of, access_record, measure, id_of, after_call, dispatch,
  RootLogger, configure_logging,
}
use distributed_wallet_ledge.Observability.Traced.{entry, format_lem}

given_id :
    (o : Option Text) (id : Text)
    → o ≡ none
    → id ≢ []
    → first_text (first_text o (some id)) none ≡ some id
unfolding first_text
given_id none [] e h = elim (h refl) [ ]
given_id none (c ∷ id) e h = refl
given_id (some t) id e h = cc e

-- The request ends as the application ended it, with the id in the header of a response.
abbrev pub tagged : Text → HttpResponse → HttpResponse
tagged id response = record response { response_id_header = some id }

abbrev pub with_id : Option Text → Process → Process
with_id id p = record p { request_id_var = id }

-- What the middleware makes of a call that ended with `called` and left `p'`.
pub data Dispatched (drawn : Measured) (request : Request) (p p' : Process) (called r : Called)
    (after : Process) : Type 0 where
  propagates :
      called ≡ raised
      → r ≡ raised
      → after ≡ with_id p.request_id_var p'
      → Dispatched drawn request p p' called r after
  scraped :
      (response : HttpResponse)
      → called ≡ returned response
      → text_eq (label_of request) (codes "/metrics") ≡ true
      → r ≡ returned (tagged (id_of drawn request) response)
      → after ≡ with_id p.request_id_var p'
      → Dispatched drawn request p p' called r after
  measured :
      (response : HttpResponse) (line : Json)
      → called ≡ returned response
      → text_eq (label_of request) (codes "/metrics") ≡ false
      → r ≡ returned (tagged (id_of drawn request) response)
      → after.request_id_var ≡ p.request_id_var
      → after.log ≡ line ∷ p'.log
      → after.request_count
        ≡ (request.request_method, label_of request, response.status_code) ∷ p'.request_count
      → after.request_latency
        ≡ (request.request_method, label_of request, drawn.duration) ∷ p'.request_latency
      → entry (codes "path") line ≡ some (string (label_of request))
      → entry (codes "status") line ≡ some (number response.status_code)
      → entry (codes "request_id") line ≡ Option.map string (first_text p.request_id_var none)
      → Dispatched drawn request p p' called r after

module _ (drawn : Measured) (request : Request) (p : Process) where
  abbrev access_line : ℕ → Json
  access_line status =
      format p.request_id_var drawn.time (access_record request status drawn.rounded)

  access_id :
      (status : ℕ)
      → entry (codes "request_id") (access_line status)
        ≡ Option.map string (first_text p.request_id_var none)
  unfolding first_text
  access_id status =
      (format_lem p.request_id_var drawn.time (access_record request status drawn.rounded)).4

  dispatched :
      (called : Called) (p' : Process)
      → let (r, after) = after_call drawn request p.request_id_var called p' in
        Dispatched drawn request p p' called r after
  unfolding after_call measure
  dispatched raised p' = propagates refl refl refl
  dispatched (returned response) p' =
      elim (Bool-cases (text_eq (label_of request) (codes "/metrics"))) [
        | inl h ↦ rw h (scraped response refl h refl refl)
        | inr h ↦
            let reads =
              format_lem p.request_id_var drawn.time
                (access_record request response.status_code drawn.rounded) in
            rw h (
              measured response (access_line response.status_code) refl h refl refl refl refl refl
                reads.6 reads.7 (access_id response.status_code))
      ]

  -- Whatever the application does: the context variable is as before the request. An exception
  -- passes, and leaves no access line and no count. A response keeps its status and gets the id of
  -- the request in its header. Unless the label is `/metrics`, it is counted once under its method,
  -- label and status, and has one access line, which says the label and the status, and the id of
  -- the context outside the request.
  pub dispatch_outcome :
      (call_next : Request → Process → Called × Process)
      → let (called, p') = call_next request (with_id (some (id_of drawn request)) p) in
        let (r, after) = dispatch drawn call_next request p in
        Dispatched drawn request p p' called r after
  unfolding dispatch
  dispatch_outcome call_next =
      let o = call_next request (with_id (some (id_of drawn request)) p) in dispatched o.0 o.1

  -- A request whose application logs one record and returns, outside any other request: the line of
  -- the application has the id that the response echoes, but the access line has no id.
  pub dispatch_traced :
      (r : LogRecord) (time : Text) (response : HttpResponse)
      → p.request_id_var ≡ none
      → r.request_id ≡ none
      → id_of drawn request ≢ []
      → text_eq (label_of request) (codes "/metrics") ≡ false
      → let (called, after) =
          dispatch drawn (λ _ q. (returned response, emit time r q)) request p in
        (called ≡ returned (tagged (id_of drawn request) response))
        × (inner : Json) × (access : Json) × (after.log ≡ access ∷ inner ∷ p.log)
        × (entry (codes "request_id") inner ≡ some (string (id_of drawn request)))
        × (entry (codes "request_id") access ≡ none)
  unfolding dispatch after_call measure first_text
  dispatch_traced r time response outside plain nonempty h = rw h (
    refl,
    format (some (id_of drawn request)) time r,
    access_line response.status_code,
    refl,
    (format_lem (some (id_of drawn request)) time r).4
        ∙ ap (Option.map string) (given_id r.request_id (id_of drawn request) plain nonempty),
    access_id response.status_code ∙ rw outside,
  )

-- A second `configure_logging`, at whatever level, changes nothing.
pub configure_logging_again :
    (level again : ℕ) (root : RootLogger)
    → configure_logging again (configure_logging level root) ≡ configure_logging level root
unfolding configure_logging
configure_logging_again level again root = elim (Bool-cases root.configured) [
  | inl h ↦ again_set again (configure_logging level root) (kept h)
  | inr h ↦ again_set again (configure_logging level root) (set h)
]
  where
    again_set :
        (n : ℕ) (root : RootLogger) → root.configured ≡ true → configure_logging n root ≡ root
    again_set n root h = rw h

    kept : root.configured ≡ true → (configure_logging level root).configured ≡ true
    kept h = rw h

    set : root.configured ≡ false → (configure_logging level root).configured ≡ true
    set h = rw h
