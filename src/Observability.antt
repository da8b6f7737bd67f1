-- ===== src/Observability.antt =====
-- Logging, metrics and the middleware around every request (app/core/logging.py, app/core/metrics.py,
-- app/api/middleware.py), and the probes of app/main.py. The application behind the middleware is a
-- parameter; the clock, the uuids and the formatted times are arguments.
pub mod Traced
pub mod Requests
use distributed_wallet_ledge.Base.{
  ℕ, suc, ⊤, Bool, true, false, not, ◌||◌, Option, none, some, List, [], ◌∷◌, ◌++◌, if◌then◌else◌,
}
use distributed_wallet_ledge.Base.Text.{Text, codes, text_eq}

-- `logging.LogRecord`: its name, level and message, the attributes that `extra` may set, and the
-- formatted exception.
pub record LogRecord : Type 0 where
  pub levelname : Text
  pub name : Text
  pub text : Text
  pub request_id : Option Text
  pub method : Option Text
  pub path : Option Text
  pub status : Option ℕ
  pub duration_ms : Option ℕ
  pub exc_info : Option Text

pub data JsonValue : Type 0 where
  string : Text → JsonValue
  number : ℕ → JsonValue

abbrev pub Json : Type 0
Json = List (Text × JsonValue)

-- `a or b` on texts that may be missing: the empty text counts as missing.
unfoldable pub first_text : Option Text → Option Text → Option Text
first_text none b = b
first_text (some []) b = b
first_text (some (c ∷ s)) b = some (c ∷ s)

-- `if text: payload[key] = text`
abbrev pub truthy : Text → Option Text → Json
truthy key (some (c ∷ s)) = (key, string (c ∷ s)) ∷ []
truthy key _ = []

-- `if hasattr(record, key): payload[key] = …`
abbrev pub field {ℓ} : {A : Type ℓ} → (A → JsonValue) → Text → Option A → Json
field value key none = []
field value key (some a) = (key, value a) ∷ []

-- `JsonFormatter.format`, before `json.dumps`; `current` is `request_id_var.get()`.
unfoldable pub format : Option Text → Text → LogRecord → Json
unfolding first_text
format current time r =
    (codes "ts", string time)
      ∷ (codes "level", string r.levelname)
      ∷ (codes "logger", string r.name)
      ∷ (codes "message", string r.text)
      ∷ truthy (codes "request_id") (first_text r.request_id current)
    ++ (field string (codes "method") r.method
        ++ (field string (codes "path") r.path
            ++ (field number (codes "status") r.status
                ++ (field number (codes "duration_ms") r.duration_ms
                    ++ field string (codes "exc_info") r.exc_info))))

-- What the process keeps: the context variable of the task, the lines of the log and the two
-- metrics, the latest first. A counter is the list of the labels of its increments.
pub record Process : Type 0 where
  pub request_id_var : Option Text
  pub log : List Json
  pub request_count : List (Text × Text × ℕ)
  pub request_latency : List (Text × Text × ℕ)

-- A log call, formatted at once with the context variable as it is then.
abbrev pub emit : Text → LogRecord → Process → Process
emit time r p = record p { log = format p.request_id_var time r ∷ p.log }

pub record Request : Type 0 where
  pub request_method : Text
  pub url_path : Text
  -- the value of the header X-Request-ID
  pub request_id_header : Option Text
  -- the template of the route that matched
  pub route : Option Text

pub record HttpResponse : Type 0 where
  pub status_code : ℕ
  -- the value of the header X-Request-ID
  pub response_id_header : Option Text

-- `call_next`: a response, or an exception.
pub data Called : Type 0 where
  returned : HttpResponse → Called
  raised : Called

-- What one request draws: `uuid.uuid4().hex`, the duration by `perf_counter`, the same rounded for the
-- log, in hundredths of a millisecond, and the time of the log line.
pub record Measured : Type 0 where
  pub minted : Text
  pub duration : ℕ
  pub rounded : ℕ
  pub time : Text

-- `getattr(route, "path", request.url.path)`
abbrev pub label_of : Request → Text
label_of request = elim request.route [ none ↦ request.url_path | some path ↦ path ]

abbrev pub access_record : Request → ℕ → ℕ → LogRecord
access_record request status duration = record {
  levelname = codes "INFO";
  name = codes "app.access";
  text = codes "request";
  request_id = none;
  method = some request.request_method;
  path = some (label_of request);
  status = some status;
  duration_ms = some duration;
  exc_info = none;
}

-- The metrics and the access line of a response.
unfoldable pub measure : Measured → Request → ℕ → Process → Process
unfolding format
measure drawn request status p =
    if not (text_eq (label_of request) (codes "/metrics"))
    then emit drawn.time (access_record request status drawn.rounded) (record p {
      request_count = (request.request_method, label_of request, status) ∷ p.request_count;
      request_latency =
          (request.request_method, label_of request, drawn.duration) ∷ p.request_latency;
    })
    else p

-- The inbound id, or the minted one.
unfoldable pub id_of : Measured → Request → Text
id_of drawn request = elim (first_text request.request_id_header none) [
  | none ↦ drawn.minted
  | some id ↦ id
]

-- After `call_next`: `request_id_var.reset(token)` gives the variable the value that it had before
-- the `set`, whether the call returned or raised.
unfoldable pub after_call : Measured → Request → Option Text → Called → Process → Called × Process
unfolding measure id_of
after_call drawn request previous raised p = (raised, record p { request_id_var = previous })
after_call drawn request previous (returned response) p = (
  returned (record response { response_id_header = some (id_of drawn request) }),
  measure drawn request response.status_code (record p { request_id_var = previous }),
)

-- `ObservabilityMiddleware.dispatch`
unfoldable pub dispatch :
    Measured → (Request → Process → Called × Process) → Request → Process → Called × Process
unfolding after_call
dispatch drawn call_next request p =
    let (called, p') =
      call_next request (record p { request_id_var = some (id_of drawn request) }) in
    after_call drawn request p.request_id_var called p'

-- `configure_logging` and its global `_configured`: the handlers of the root logger, by their
-- formatters, and its level.
pub data Formatter : Type 0 where
  json_formatter other_formatter : Formatter

pub record RootLogger : Type 0 where
  pub configured : Bool
  pub handlers : List Formatter
  pub level : ℕ

unfoldable pub configure_logging : ℕ → RootLogger → RootLogger
configure_logging level root =
    if root.configured
    then root
    else record { configured = true; handlers = json_formatter ∷ []; level = level }

-- The answers of the probes: a status code and the body.
pub record Probe : Type 0 where
  pub probe_code : ℕ
  pub body : List (Text × Text)

unfoldable pub health : Probe
health = record { probe_code = 200; body = (codes "status", codes "ok") ∷ [] }

abbrev warning : Text → LogRecord
warning trace = record {
  levelname = codes "WARNING";
  name = codes "app";
  text = codes "readiness check failed";
  request_id = none;
  method = none;
  path = none;
  status = none;
  duration_ms = none;
  exc_info = some trace;
}

-- `readiness`: `failure` is the formatted exception of `db.execute`, if it raises.
unfoldable pub readiness : Text → Option Text → Process → Probe × Process
unfolding format
readiness time none p = (
  record {
    probe_code = 200;
    body = (codes "status", codes "ready") ∷ (codes "db", codes "ok") ∷ [];
  },
  p,
)
readiness time (some trace) p = (
  record {
    probe_code = 503;
    body = (codes "status", codes "not ready") ∷ (codes "db", codes "down") ∷ [];
  },
  emit time (warning trace) p,
)
