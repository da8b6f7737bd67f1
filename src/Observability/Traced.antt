-- ===== src/Observability/Traced.antt =====
-- What the log lines, the response and the context variable say of a request.
use distributed_wallet_ledge.Base.{
  ◌≡◌, refl, ◌∙◌, true, false, Option, none, some, [], ◌∷◌, ◌++◌, if◌then◌else◌,
}
use mathlib.Core.Option as Option
use distributed_wallet_ledge.Base.Text.{Text, codes, text_eq}
use distributed_wallet_ledge.Observability.{
  LogRecord, JsonValue, string, number, Json, first_text, truthy, field, format,
}

-- A key of a JSON object.
abbrev pub entry : Text → Json → Option JsonValue
entry key [] = none
entry key ((k, v) ∷ json) = if text_eq k key then some v else entry key json

skip-field :
    {A : Type 0} (value : A → JsonValue) (key other : Text) (o : Option A) (rest : Json)
    → text_eq other key ≡ false
    → entry key (field value other o ++ rest) ≡ entry key rest
skip-field value key other none rest h = refl
skip-field value key other (some a) rest h = rw h

read-field :
    {A : Type 0} (value : A → JsonValue) (key : Text) (o : Option A) (rest : Json)
    → text_eq key key ≡ true
    → entry key rest ≡ none
    → entry key (field value key o ++ rest) ≡ Option.map value o
read-field value key none rest h k = k
read-field value key (some a) rest h k = rw h

skip-truthy :
    (key other : Text) (o : Option Text) (rest : Json)
    → text_eq other key ≡ false
    → entry key (truthy other o ++ rest) ≡ entry key rest
skip-truthy key other none rest h = refl
skip-truthy key other (some []) rest h = refl
skip-truthy key other (some (c ∷ t)) rest h = rw h

read-truthy :
    (key : Text) (o : Option Text) (rest : Json)
    → text_eq key key ≡ true
    → entry key rest ≡ none
    → entry key (truthy key o ++ rest) ≡ Option.map string (first_text o none)
unfolding first_text
read-truthy key none rest h k = k
read-truthy key (some []) rest h k = k
read-truthy key (some (c ∷ t)) rest h k = rw h

read-last :
    {A : Type 0} (value : A → JsonValue) (key : Text) (o : Option A)
    → text_eq key key ≡ true
    → entry key (field value key o) ≡ Option.map value o
read-last value key none h = refl
read-last value key (some a) h = rw h

skip-last :
    {A : Type 0} (value : A → JsonValue) (key other : Text) (o : Option A)
    → text_eq other key ≡ false
    → entry key (field value other o) ≡ none
skip-last value key other none h = refl
skip-last value key other (some a) h = rw h

module _ (current : Option Text) (time : Text) (r : LogRecord) where
  abbrev line : Json
  line = format current time r

  format_request_id :
      entry (codes "request_id") line
      ≡ Option.map string (first_text (first_text r.request_id current) none)
  unfolding format text_eq
  format_request_id = read-truthy (codes "request_id") (first_text r.request_id current) _ refl (
      skip-field string (codes "request_id") (codes "method") r.method _ refl
      ∙ skip-field string (codes "request_id") (codes "path") r.path _ refl
      ∙ skip-field number (codes "request_id") (codes "status") r.status _ refl
      ∙ skip-field number (codes "request_id") (codes "duration_ms") r.duration_ms _ refl
      ∙ skip-last string (codes "request_id") (codes "exc_info") r.exc_info refl)

  format_method : entry (codes "method") line ≡ Option.map string r.method
  unfolding format text_eq
  format_method =
      skip-truthy (codes "method") (codes "request_id") (first_text r.request_id current) _ refl
      ∙ read-field string (codes "method") r.method _ refl (
          skip-field string (codes "method") (codes "path") r.path _ refl
          ∙ skip-field number (codes "method") (codes "status") r.status _ refl
          ∙ skip-field number (codes "method") (codes "duration_ms") r.duration_ms _ refl
          ∙ skip-last string (codes "method") (codes "exc_info") r.exc_info refl)

  format_path : entry (codes "path") line ≡ Option.map string r.path
  unfolding format text_eq
  format_path =
      skip-truthy (codes "path") (codes "request_id") (first_text r.request_id current) _ refl
      ∙ skip-field string (codes "path") (codes "method") r.method _ refl
      ∙ read-field string (codes "path") r.path _ refl (
          skip-field number (codes "path") (codes "status") r.status _ refl
          ∙ skip-field number (codes "path") (codes "duration_ms") r.duration_ms _ refl
          ∙ skip-last string (codes "path") (codes "exc_info") r.exc_info refl)

  format_status : entry (codes "status") line ≡ Option.map number r.status
  unfolding format text_eq
  format_status =
      skip-truthy (codes "status") (codes "request_id") (first_text r.request_id current) _ refl
      ∙ skip-field string (codes "status") (codes "method") r.method _ refl
      ∙ skip-field string (codes "status") (codes "path") r.path _ refl
      ∙ read-field number (codes "status") r.status _ refl (
          skip-field number (codes "status") (codes "duration_ms") r.duration_ms _ refl
          ∙ skip-last string (codes "status") (codes "exc_info") r.exc_info refl)

  format_duration_ms : entry (codes "duration_ms") line ≡ Option.map number r.duration_ms
  unfolding format text_eq
  format_duration_ms =
      skip-truthy (codes "duration_ms") (codes "request_id") (first_text r.request_id current) _
        refl
      ∙ skip-field string (codes "duration_ms") (codes "method") r.method _ refl
      ∙ skip-field string (codes "duration_ms") (codes "path") r.path _ refl
      ∙ skip-field number (codes "duration_ms") (codes "status") r.status _ refl
      ∙ read-field number (codes "duration_ms") r.duration_ms _ refl
          (skip-last string (codes "duration_ms") (codes "exc_info") r.exc_info refl)

  format_exc_info : entry (codes "exc_info") line ≡ Option.map string r.exc_info
  unfolding format text_eq
  format_exc_info =
      skip-truthy (codes "exc_info") (codes "request_id") (first_text r.request_id current) _ refl
      ∙ skip-field string (codes "exc_info") (codes "method") r.method _ refl
      ∙ skip-field string (codes "exc_info") (codes "path") r.path _ refl
      ∙ skip-field number (codes "exc_info") (codes "status") r.status _ refl
      ∙ skip-field number (codes "exc_info") (codes "duration_ms") r.duration_ms _ refl
      ∙ read-last string (codes "exc_info") r.exc_info refl

  -- A log line says what its record says: every one of its keys reads back the attribute that it was
  -- written from, an attribute that the record does not have has no key, and `request_id` is the
  -- record's own, or else the one of the context, if it is not empty.
  pub format_lem :
      (entry (codes "ts") line ≡ some (string time))
      × (entry (codes "level") line ≡ some (string r.levelname))
      × (entry (codes "logger") line ≡ some (string r.name))
      × (entry (codes "message") line ≡ some (string r.text))
      × (entry (codes "request_id") line
          ≡ Option.map string (first_text (first_text r.request_id current) none))
      × (entry (codes "method") line ≡ Option.map string r.method)
      × (entry (codes "path") line ≡ Option.map string r.path)
      × (entry (codes "status") line ≡ Option.map number r.status)
      × (entry (codes "duration_ms") line ≡ Option.map number r.duration_ms)
      × (entry (codes "exc_info") line ≡ Option.map string r.exc_info)
  unfolding format text_eq
  format_lem = (
    refl, refl, refl, refl, format_request_id, format_method, format_path, format_status,
    format_duration_ms, format_exc_info,
  )
