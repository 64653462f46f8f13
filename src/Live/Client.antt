-- ===== src/Live/Client.antt =====
-- web/src/api/sse/SseClient.ts: the client of the event stream. The streams it opened are part of
-- its state, each by the number it was opened as and with the listeners it has; what a stream does
-- reaches the client through these alone. `reports` is what its owner was told, latest first.
use ocs_testbench.Common.{
  ℕ, Bool, true, false, not, ◌&&◌, List, [], ◌∷◌, Option, none, some, map, any, length, filter_by,
  ◌==◌, if◌then◌else◌,
}

pub data SseStatus : Type 0 where
  idle connecting open_status closed : SseStatus

pub data EventType : Type 0 where
  peer_updated execution_created execution_progress dashboard_kpi : EventType

pub data Listener : Type 0 where
  on_open on_error : Listener
  on_type : EventType → Listener

pub data Report {ℓ} (E : Type ℓ) : Type ℓ where
  status_is : SseStatus → Report E
  event : EventType → E → Report E
  reconnect_hint : Report E
  dropped : EventType → Report E

pub record Stream : Type 0 where
  pub number : ℕ
  pub listeners : List Listener

pub record SseClient {ℓ} (E : Type ℓ) : Type ℓ where
  pub stream : Option ℕ
  pub status : SseStatus
  pub listeners : List EventType
  pub open_listener : Bool
  pub error_listener : Bool
  pub streams : List Stream
  pub reports : List (Report E)

-- What a stream can do: its data is what the text of a message parses to, if it does.
pub data StreamStep {ℓ} (E : Type ℓ) : Type ℓ where
  opens : StreamStep E
  errs : (ready_state : ℕ) → StreamStep E
  sends : EventType → Option E → StreamStep E

pub data ClientStep {ℓ} (E : Type ℓ) : Type ℓ where
  open_called close_called : ClientStep E
  stream_does : (number : ℕ) → StreamStep E → ClientStep E

abbrev pub same_status : SseStatus → SseStatus → Bool
same_status idle idle = true
same_status connecting connecting = true
same_status open_status open_status = true
same_status closed closed = true
same_status a b = false

abbrev same_type : EventType → EventType → Bool
same_type peer_updated peer_updated = true
same_type execution_created execution_created = true
same_type execution_progress execution_progress = true
same_type dashboard_kpi dashboard_kpi = true
same_type a b = false

abbrev pub same_listener : Listener → Listener → Bool
same_listener on_open on_open = true
same_listener on_error on_error = true
same_listener (on_type a) (on_type b) = same_type a b
same_listener a b = false

-- `SSE_EVENT_TYPES`
abbrev pub sse_event_types : List EventType
sse_event_types = peer_updated ∷ execution_created ∷ execution_progress ∷ dashboard_kpi ∷ []

-- `removeEventListener`
abbrev pub remove_listener : Listener → Stream → Stream
remove_listener l s = record s { listeners = filter_by (λ m. not (same_listener m l)) s.listeners }

abbrev pub remove_all : List Listener → Stream → Stream
remove_all [] s = s
remove_all (l ∷ ls) s = remove_all ls (remove_listener l s)

-- The two listeners of the connection that are set.
abbrev pub connection_listeners : Bool → Bool → List Listener
connection_listeners true true = on_open ∷ on_error ∷ []
connection_listeners true false = on_open ∷ []
connection_listeners false true = on_error ∷ []
connection_listeners false false = []

abbrev pub at_stream : ℕ → (Stream → Stream) → List Stream → List Stream
at_stream k f ss = map (λ s. if s.number == k then f s else s) ss

abbrev pub is_heard : ℕ → Listener → List Stream → Bool
is_heard k l ss = any (λ s. (s.number == k) && any (λ m. same_listener m l) s.listeners) ss

module _ {ℓ} {E : Type ℓ} where
  abbrev pub new_client : SseClient E
  new_client = record {
    stream = none;
    status = idle;
    listeners = [];
    open_listener = false;
    error_listener = false;
    streams = [];
    reports = [];
  }

  unfoldable pub set_status : SseStatus → SseClient E → SseClient E
  set_status next c =
      if same_status c.status next
      then c
      else record c { status = next; reports = status_is next ∷ c.reports }

  -- The client after `this.stream` was looked at.
  unfoldable pub open_from : Option ℕ → SseClient E → SseClient E
  unfolding set_status
  open_from (some k) c = c
  open_from none c =
      let d = set_status connecting c in
      record d {
        stream = some (length d.streams);
        open_listener = true;
        error_listener = true;
        listeners = sse_event_types;
        streams =
            record {
              number = length d.streams;
              listeners = on_open ∷ on_error ∷ map on_type sse_event_types;
            }
            ∷ d.streams;
      }

  unfoldable pub open_client : SseClient E → SseClient E
  unfolding open_from
  open_client c = open_from c.stream c

  -- What `close` takes from its stream.
  abbrev pub detach : SseClient E → Stream → Stream
  detach c s =
      remove_all (connection_listeners c.open_listener c.error_listener)
        (remove_all (map on_type c.listeners) s)

  unfoldable pub close_from : Option ℕ → SseClient E → SseClient E
  unfolding set_status
  close_from none c = c
  close_from (some k) c = set_status closed (record c {
    streams = at_stream k (detach c) c.streams;
    listeners = [];
    open_listener = false;
    error_listener = false;
    stream = none;
  })

  unfoldable pub close_client : SseClient E → SseClient E
  unfolding close_from
  close_client c = close_from c.stream c

  abbrev pub report : Report E → SseClient E → SseClient E
  report r c = record c { reports = r ∷ c.reports }

  abbrev pub listener_of : StreamStep E → Listener
  listener_of opens = on_open
  listener_of (errs ready_state) = on_error
  listener_of (sends type data_sent) = on_type type

  -- The listeners' bodies.
  unfoldable pub hear : StreamStep E → SseClient E → SseClient E
  unfolding set_status
  hear opens c = set_status open_status c
  hear (errs ready_state) c =
      if ready_state == 2
      then set_status closed c
      else report reconnect_hint (set_status connecting c)
  hear (sends type (some e)) c = report (event type e) c
  hear (sends type none) c = report (dropped type) c

  unfoldable pub client_step : ClientStep E → SseClient E → SseClient E
  unfolding open_client close_client hear
  client_step open_called c = open_client c
  client_step close_called c = close_client c
  client_step (stream_does k step) c =
      if is_heard k (listener_of step) c.streams then hear step c else c

  unfoldable pub client_steps : List (ClientStep E) → SseClient E → SseClient E
  unfolding client_step
  client_steps [] c = c
  client_steps (x ∷ xs) c = client_steps xs (client_step x c)
