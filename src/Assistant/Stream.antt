-- ===== src/Assistant/Stream.antt =====
-- web/src/pages/ai-assistant/useChatSse.ts: a message is sent, and the answer's stream is read into
-- the chat store. A text of the stream is the list of its characters' codes, as the platform's
-- decoder gives them; the reading of JSON and the clock are arguments.
pub mod Scanner
pub mod Chunks
pub mod Sent
use ocs_testbench.Common.{
  ℕ, ◌+◌, String, Bool, true, false, not, ◌&&◌, List, [], ◌∷◌, ◌++◌, Option, none, some, ◌==◌, drop,
  truthy, if◌then◌else◌,
}
use ocs_testbench.Common.Text.{◌⧺◌, number_text}
use ocs_testbench.Assistant.{ThreadItem, user, assistant, SseEvent, finished}
use ocs_testbench.Assistant.Chat.{
  ChatState, act, event_arrives, push_user_message, start_stream, end_stream, abort_stream,
  append_error, set_session_id,
}

-- `text.split('\n\n')` from a part begun with `current`: the parts but for the last, and the last.
unfoldable pub split_blank : List ℕ → List ℕ → List (List ℕ) × List ℕ
split_blank current [] = ([], current)
split_blank current (c ∷ []) = ([], current ++ c ∷ [])
split_blank current (c ∷ d ∷ rest) =
    let after = split_blank [] rest in
    let within = split_blank (current ++ c ∷ []) (d ∷ rest) in
    if (c == 10) && (d == 10) then (current ∷ after.0, after.1) else within

-- `part.split('\n')`
unfoldable pub split_lines : List ℕ → List ℕ → List (List ℕ)
split_lines current [] = current ∷ []
split_lines current (c ∷ rest) =
    let after = current ∷ split_lines [] rest in
    let within = split_lines (current ++ c ∷ []) rest in if c == 10 then after else within

-- `data: `
abbrev pub data_prefix : List ℕ
data_prefix = 100 ∷ 97 ∷ 116 ∷ 97 ∷ 58 ∷ 32 ∷ []

abbrev pub starts_with : List ℕ → List ℕ → Bool
starts_with [] cs = true
starts_with (p ∷ ps) [] = false
starts_with (p ∷ ps) (c ∷ cs) = (c == p) && starts_with ps cs

-- What a call of `reader.read()` gives.
pub data Reading : Type 0 where
  chunk : List ℕ → Reading
  closed : Reading
  aborted : Reading
  broken : (message : String) → Reading

pub data Response : Type 0 where
  refused : (status : ℕ) (status_text : String) → Response
  answered : (session : Option String) → Response
  fetch_aborted : Response
  unreachable : (message : String) → Response

abbrev pub is_done : SseEvent → Bool
is_done (finished input output) = true
is_done e = false

module _ (parse_json : List ℕ → Option SseEvent) (text_length : String → ℕ) (now : ℕ) where
  unfoldable pub parse_data_line : List ℕ → Option SseEvent
  parse_data_line line =
      if not (starts_with data_prefix line) then none else parse_json (drop 6 line)

  -- One line, before the rest of its part. The flag tells that the loop returned at a `done`.
  abbrev pub apply_line :
      Option SseEvent → (ChatState → ChatState × Bool) → ChatState → ChatState × Bool
  apply_line none rest s = rest s
  apply_line (some e) rest s =
      let next = act text_length (event_arrives now e) s in
      let more = rest next in if is_done e then (next, true) else more

  unfoldable pub apply_lines : List (List ℕ) → ChatState → ChatState × Bool
  unfolding parse_data_line
  apply_lines [] s = (s, false)
  apply_lines (line ∷ lines) s = apply_line (parse_data_line line) (apply_lines lines) s

  unfoldable pub apply_parts : List (List ℕ) → ChatState → ChatState × Bool
  unfolding apply_lines split_lines
  apply_parts [] s = (s, false)
  apply_parts (part ∷ parts) s =
      let here = apply_lines (split_lines [] part) s in
      let more = apply_parts parts here.0 in if here.1 then here else more

  -- The loop of `sendMessage`. Without a further reading the stream is still open.
  unfoldable pub read_stream : List ℕ → List Reading → ChatState → ChatState
  unfolding apply_parts split_blank
  read_stream buffer [] s = s
  read_stream buffer (chunk value ∷ readings) s =
      let parts = split_blank [] (buffer ++ value) in
      let applied = apply_parts parts.0 s in
      let more = read_stream parts.1 readings applied.0 in
      if applied.1 then act text_length (end_stream now) applied.0 else more
  read_stream buffer (closed ∷ readings) s = act text_length (end_stream now) s
  read_stream buffer (aborted ∷ readings) s = act text_length (end_stream now) s
  read_stream buffer (broken message ∷ readings) s = act text_length (append_error now message) s

  abbrev pub with_session : Option String → ChatState → ChatState
  with_session none s = s
  with_session (some id) s = if truthy (some id) then act text_length (set_session_id id) s else s

  abbrev pub on_response : Response → List Reading → ChatState → ChatState
  on_response (refused status status_text) readings s =
      act text_length
        (append_error now ("Request failed: " ⧺ number_text status ⧺ " " ⧺ status_text)) s
  on_response (answered session) readings s = read_stream [] readings (with_session session s)
  on_response fetch_aborted readings s = act text_length (end_stream now) s
  on_response (unreachable message) readings s = act text_length (append_error now message) s

  -- The store's part of `sendMessage`.
  unfoldable pub send_message : String → Response → List Reading → ChatState → ChatState
  unfolding read_stream
  send_message text response readings s =
      on_response response readings
        (act text_length (start_stream now) (act text_length (push_user_message text) s))

  -- The store's part of `abort`; the reading that is rejected comes after.
  unfoldable pub abort : ChatState → ChatState
  abort s = act text_length abort_stream s

pub record ChatTurn : Type 0 where
  pub from_user : Bool
  pub content : String

-- What one item of the thread adds to the request.
abbrev pub turn_of : ThreadItem → List ChatTurn
turn_of (user n content false) = record { from_user = true; content = content } ∷ []
turn_of (assistant n content false) = record { from_user = false; content = content } ∷ []
turn_of i = []

unfoldable pub history_turns : List ThreadItem → List ChatTurn
history_turns [] = []
history_turns (i ∷ items) = turn_of i ++ history_turns items

-- The body of the request. The thread is that of before the message.
unfoldable pub request_messages : List ThreadItem → String → List ChatTurn
unfolding history_turns
request_messages thread text =
    history_turns thread ++ record { from_user = true; content = text } ∷ []
