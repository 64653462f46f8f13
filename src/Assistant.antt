-- ===== src/Assistant.antt =====
-- The AI assistant's chat, web/src/pages/ai-assistant: the data of types.ts and the rules of
-- permissionState.ts.
pub mod Chat
pub mod Stream
use ocs_testbench.Common.{ℕ, String, Bool, true, false, not, List, ◌∷◌, [], Option}
use ocs_testbench.Common.Objects.{insert, has_key}

pub data PermissionTier : Type 0 where
  readonly write destructive : PermissionTier

pub data ToolCallStatus : Type 0 where
  pending running done denied : ToolCallStatus

pub record ToolCall : Type 0 where
  pub id : String
  pub name : String
  pub description : String
  pub tier : PermissionTier
  pub status : ToolCallStatus
  pub result : Option String

-- The items' ids are texts `item-<n>`, of which `id` is the number.
pub data ThreadItem : Type 0 where
  user : (id : ℕ) (content : String) (aborted : Bool) → ThreadItem
  assistant : (id : ℕ) (content : String) (aborted : Bool) → ThreadItem
  planning : (id : ℕ) (content : String) (collapsed : Bool) → ThreadItem
  tool_call : (id : ℕ) (call : ToolCall) → ThreadItem

pub record PermissionPromptState : Type 0 where
  pub call_id : String
  pub tool_name : String
  pub description : String
  pub tier : PermissionTier

-- A `Record<string, true>`: the keys of its entries. Names that every object inherits, such as
-- `toString`, are not taken for tools.
pub data Granted : Type 0 where
  yes : Granted

abbrev pub SessionPermissions : Type 0
SessionPermissions = List (String × Granted)

pub data SseEvent : Type 0 where
  thinking : (content : String) → SseEvent
  token : (chunk : String) → SseEvent
  tool_called :
      (id name description : String) (tier : PermissionTier) (result : Option String) → SseEvent
  permission_required : PermissionPromptState → SseEvent
  usage_update : (input_tokens output_tokens : Option ℕ) → SseEvent
  finished : (input_tokens output_tokens : Option ℕ) → SseEvent

-- Whether the prompt is shown: the other answer of the source is 'silent'.
unfoldable pub should_prompt : PermissionTier → String → SessionPermissions → Bool
unfolding has_key
should_prompt readonly tool permissions = false
should_prompt destructive tool permissions = true
should_prompt write tool permissions = not (has_key tool permissions)

unfoldable pub grant_always : SessionPermissions → String → SessionPermissions
unfolding insert
grant_always permissions tool = insert tool yes permissions

unfoldable pub has_always_grant : SessionPermissions → String → Bool
unfolding has_key
has_always_grant permissions tool = has_key tool permissions
