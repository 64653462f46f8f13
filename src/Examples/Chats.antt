-- ===== src/Examples/Chats.antt =====
-- Turns of a chat with the assistant.
use ocs_testbench.Common.{ℕ, ◌≡◌, refl, String, List, [], ◌∷◌}
use ocs_testbench.Common.Objects.{has_key, insert}
use ocs_testbench.Assistant.{
  PermissionPromptState, write, thinking, token, permission_required, should_prompt,
}
use ocs_testbench.Assistant.Chat.{
  ChatState, initial_chat, ChatAction, event_arrives, push_user_message, approve_always,
  abort_stream, act_all,
}
use ocs_testbench.Assistant.Chat.Ids.{IsNumbered, act_all-IsNumbered}
use ocs_testbench.Assistant.Chat.Grants.{WasApproved, silent-WasApproved}

abbrev one_each : String → ℕ
one_each s = 1

abbrev two_turns : List ChatAction
two_turns =
    push_user_message "start a run"
    ∷ event_arrives 1 (thinking "first")
    ∷ event_arrives 2 (token "Run ")
    ∷ abort_stream
    ∷ push_user_message "again"
    ∷ event_arrives 3 (thinking " second")
    ∷ []

act_all-IsNumbered_example : IsNumbered (act_all one_each two_turns initial_chat)
act_all-IsNumbered_example = act_all-IsNumbered one_each two_turns

abbrev after_turns : ChatState
after_turns = act_all one_each two_turns initial_chat

abbrev save_prompt : PermissionPromptState
save_prompt = record {
  call_id = "c1";
  tool_name = "save";
  description = "Save the scenario";
  tier = write;
}

abbrev always : List ChatAction
always = event_arrives 1 (permission_required save_prompt) ∷ approve_always "c1" ∷ []

silent-WasApproved_example : (write ≡ write) × WasApproved one_each "save" always initial_chat
unfolding act_all should_prompt insert has_key
silent-WasApproved_example = silent-WasApproved one_each "save" always write (λ e. cc) refl
