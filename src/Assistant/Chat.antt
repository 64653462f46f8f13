-- ===== src/Assistant/Chat.antt =====
-- web/src/pages/ai-assistant/chatStore.ts: the chat's state and its actions.
pub mod Ids
pub mod Planning
pub mod Tokens
pub mod Grants
use ocs_testbench.Common.{
  ℕ, suc, ◌+◌, String, Bool, true, false, not, ◌&&◌, ◌||◌, List, [], ◌∷◌, ◌++◌, Option, none, some,
  map, any, or_else, ◌==◌, str_eq, if◌then◌else◌,
}
use ocs_testbench.Common.Text.{◌⧺◌}
use ocs_testbench.Assistant.{
  ToolCallStatus, ToolCall, pending, done, denied, ThreadItem, user, assistant, planning, tool_call,
  PermissionPromptState, SessionPermissions, SseEvent, thinking, token, tool_called,
  permission_required, usage_update, finished, should_prompt, grant_always,
}

pub record ChatState : Type 0 where
  pub thread : List ThreadItem
  pub session_id : Option String
  pub streaming : Bool
  pub stream_started_at : Option ℕ
  pub stream_ended_at : Option ℕ
  pub input_tokens : ℕ
  pub output_tokens : ℕ
  pub output_chars : ℕ
  pub pending_prompt : Option PermissionPromptState
  pub session_permissions : SessionPermissions
  pub id_seq : ℕ
  pub draft : String

abbrev pub initial_chat : ChatState
initial_chat = record {
  thread = [];
  session_id = none;
  streaming = false;
  stream_started_at = none;
  stream_ended_at = none;
  input_tokens = 0;
  output_tokens = 0;
  output_chars = 0;
  pending_prompt = none;
  session_permissions = [];
  id_seq = 0;
  draft = "";
}

abbrev pub item_id : ThreadItem → ℕ
item_id (user n content aborted) = n
item_id (assistant n content aborted) = n
item_id (planning n content collapsed) = n
item_id (tool_call n call) = n

abbrev pub assistant_id : ThreadItem → Option ℕ
assistant_id (assistant n content aborted) = some n
assistant_id i = none

unfoldable pub last_assistant_message : List ThreadItem → Option ℕ
last_assistant_message [] = none
last_assistant_message (i ∷ []) = assistant_id i
last_assistant_message (i ∷ j ∷ items) = last_assistant_message (j ∷ items)

abbrev pub with_status : String → ToolCallStatus → ThreadItem → ThreadItem
with_status call_id s (tool_call n call) =
    if str_eq call.id call_id then tool_call n (record call { status = s }) else tool_call n call
with_status call_id s i = i

unfoldable pub update_tool_call_in_thread :
    List ThreadItem → String → ToolCallStatus → List ThreadItem
update_tool_call_in_thread thread call_id s = map (with_status call_id s) thread

abbrev pub is_planning : ThreadItem → Bool
is_planning (planning n content collapsed) = true
is_planning i = false

abbrev pub extend_planning : String → ThreadItem → ThreadItem
extend_planning more (planning n content collapsed) = planning n (content ⧺ more) collapsed
extend_planning more i = i

abbrev pub extend_assistant : ℕ → String → ThreadItem → ThreadItem
extend_assistant id chunk (assistant n content aborted) =
    if n == id then assistant n (content ⧺ chunk) aborted else assistant n content aborted
extend_assistant id chunk i = i

abbrev pub flip_planning : ℕ → ThreadItem → ThreadItem
flip_planning id (planning n content collapsed) =
    if n == id then planning n content (not collapsed) else planning n content collapsed
flip_planning id i = i

-- The next id goes to a new item at the end of the thread.
abbrev pub push_item : (ℕ → ThreadItem) → ChatState → ChatState
push_item item s = record s { thread = s.thread ++ item (suc s.id_seq) ∷ []; id_seq = suc s.id_seq }

abbrev pub call_status : Option String → ToolCallStatus
call_status none = pending
call_status (some result) = done

abbrev pub apply_thinking : String → ChatState → ChatState
apply_thinking content s =
    if any is_planning s.thread
    then record s { thread = map (extend_planning content) s.thread }
    else push_item (λ n. planning n content true) s

abbrev pub apply_token : Option ℕ → String → ChatState → ChatState
apply_token none chunk s = push_item (λ n. assistant n chunk false) s
apply_token (some id) chunk s = record s { thread = map (extend_assistant id chunk) s.thread }

abbrev pub apply_permission : Bool → PermissionPromptState → ChatState → ChatState
apply_permission false p s = s
apply_permission true p s = record s { pending_prompt = some p; streaming = false }

-- The length of a text is that of the platform, in UTF-16 units; `now` is the clock.
unfoldable pub apply_event : (String → ℕ) → ℕ → SseEvent → ChatState → ChatState
unfolding should_prompt last_assistant_message
apply_event text_length now (thinking content) s = apply_thinking content s
apply_event text_length now (token chunk) s =
    apply_token (last_assistant_message s.thread) chunk
      (record s { output_chars = s.output_chars + text_length chunk })
apply_event text_length now (tool_called id name description tier result) s =
    push_item
      (λ n. tool_call n (record {
        id = id;
        name = name;
        description = description;
        tier = tier;
        status = call_status result;
        result = result;
      }))
      s
apply_event text_length now (permission_required p) s =
    apply_permission (should_prompt p.tier p.tool_name s.session_permissions) p s
apply_event text_length now (usage_update input output) s = record s {
  input_tokens = or_else input s.input_tokens;
  output_tokens = or_else output s.output_tokens;
}
apply_event text_length now (finished input output) s = record s {
  streaming = false;
  stream_ended_at = some now;
  input_tokens = or_else input s.input_tokens;
  output_tokens = or_else output s.output_tokens;
}

abbrev pub abort_last : ThreadItem → ThreadItem
abort_last (user n content aborted) = user n content true
abort_last (assistant n content aborted) = assistant n content true
abort_last i = i

abbrev pub abort_before : ThreadItem → ThreadItem → ThreadItem
abort_before (user n content aborted) (assistant m text late) = user n content true
abort_before i j = i

unfoldable pub mark_aborted : List ThreadItem → List ThreadItem
mark_aborted [] = []
mark_aborted (i ∷ []) = abort_last i ∷ []
mark_aborted (i ∷ j ∷ []) = abort_before i j ∷ abort_last j ∷ []
mark_aborted (i ∷ j ∷ k ∷ items) = i ∷ mark_aborted (j ∷ k ∷ items)

abbrev pub approve_prompt : Option PermissionPromptState → ChatState → ChatState
approve_prompt none s = s
approve_prompt (some p) s = record s {
  session_permissions = grant_always s.session_permissions p.tool_name;
  pending_prompt = none;
  streaming = true;
}

pub data ChatAction : Type 0 where
  event_arrives : (now : ℕ) → SseEvent → ChatAction
  push_user_message : (content : String) → ChatAction
  set_draft : String → ChatAction
  toggle_planning : (id : ℕ) → ChatAction
  deny_permission : (call_id : String) → ChatAction
  approve_once : (call_id : String) → ChatAction
  approve_always : (call_id : String) → ChatAction
  set_session_id : String → ChatAction
  start_stream : (now : ℕ) → ChatAction
  end_stream : (now : ℕ) → ChatAction
  abort_stream : ChatAction
  append_error : (now : ℕ) (message : String) → ChatAction
  reset_chat : ChatAction

unfoldable pub act : (String → ℕ) → ChatAction → ChatState → ChatState
unfolding apply_event grant_always mark_aborted update_tool_call_in_thread
act text_length (event_arrives now e) s = apply_event text_length now e s
act text_length (push_user_message content) s = push_item (λ n. user n content false) s
act text_length (set_draft d) s = record s { draft = d }
act text_length (toggle_planning id) s = record s { thread = map (flip_planning id) s.thread }
act text_length (deny_permission call_id) s = record s {
  thread = update_tool_call_in_thread s.thread call_id denied;
  pending_prompt = none;
  streaming = false;
}
act text_length (approve_once call_id) s = record s { pending_prompt = none; streaming = true }
act text_length (approve_always call_id) s = approve_prompt s.pending_prompt s
act text_length (set_session_id id) s = record s { session_id = some id }
act text_length (start_stream now) s = record s {
  streaming = true;
  stream_started_at = some now;
  stream_ended_at = none;
  input_tokens = 0;
  output_tokens = 0;
  output_chars = 0;
}
act text_length (end_stream now) s = record s { streaming = false; stream_ended_at = some now }
act text_length abort_stream s = record s {
  streaming = false;
  stream_started_at = none;
  stream_ended_at = none;
  thread = mark_aborted s.thread;
}
act text_length (append_error now message) s =
    let t = push_item (λ n. assistant n ("⚠ " ⧺ message) false) s in
    record t { streaming = false; stream_ended_at = some now }
act text_length reset_chat s = initial_chat

unfoldable pub act_all : (String → ℕ) → List ChatAction → ChatState → ChatState
unfolding act
act_all text_length [] s = s
act_all text_length (a ∷ rest) s = act_all text_length rest (act text_length a s)
