-- ===== src/Assistant/Chat/Ids.antt =====
-- The ids of the thread's items, and how many planning blocks there are.
use ocs_testbench.Common.{
  ℕ, suc, ◌+◌, ◌<◌, ◌≤◌, ◌≡◌, refl, Bool, true, false, List, [], ◌∷◌, ◌++◌, Option, none, some, map,
  any, arith, String, if◌then◌else◌,
}
use ocs_testbench.Assistant.{
  ThreadItem, user, assistant, planning, tool_call, thinking, token, tool_called,
  permission_required, usage_update, finished, should_prompt, ToolCallStatus, denied,
  PermissionPromptState,
}
use ocs_testbench.Assistant.Chat.{
  ChatState, initial_chat, item_id, with_status, extend_planning, extend_assistant, flip_planning,
  push_item, apply_token, apply_permission, abort_last, abort_before, mark_aborted, approve_prompt,
  ChatAction, act, act_all, event_arrives, push_user_message, toggle_planning, deny_permission,
  approve_always, abort_stream, append_error, reset_chat, last_assistant_message,
  update_tool_call_in_thread,
}

-- The ids ascend strictly, from above `lo` to at most `hi`.
abbrev pub Ascending : ℕ → ℕ → List ThreadItem → Type 0
Ascending lo hi [] = lo ≤ hi
Ascending lo hi (i ∷ items) = (lo < item_id i) × Ascending (item_id i) hi items

pub Ascending-snoc :
    (lo hi : ℕ) (items : List ThreadItem) (i : ThreadItem)
    → Ascending lo hi items
    → item_id i ≡ suc hi
    → Ascending lo (suc hi) (items ++ i ∷ [])
Ascending-snoc lo hi [] i h e = (omega (arith, h, e), omega (arith, e))
Ascending-snoc lo hi (j ∷ items) i (l, h) e = (l, Ascending-snoc (item_id j) hi items i h e)

Ascending-map :
    (f : ThreadItem → ThreadItem)
    → ((i : ThreadItem) → item_id (f i) ≡ item_id i)
    → (lo hi : ℕ) (items : List ThreadItem) → Ascending lo hi items
    → Ascending lo hi (map f items)
Ascending-map f same lo hi [] h = h
Ascending-map f same lo hi (i ∷ items) (l, h) =
    rw (same i) (l, Ascending-map f same (item_id i) hi items h)

id-extend_planning : (c : String) (i : ThreadItem) → item_id (extend_planning c i) ≡ item_id i
id-extend_planning c (planning n content collapsed) = refl
id-extend_planning c i = refl

id-extend_assistant :
    (n : ℕ) (c : String) (i : ThreadItem) → item_id (extend_assistant n c i) ≡ item_id i
id-extend_assistant n c (assistant m content aborted) = ground arith
id-extend_assistant n c i = refl

id-flip_planning : (n : ℕ) (i : ThreadItem) → item_id (flip_planning n i) ≡ item_id i
id-flip_planning n (planning m content collapsed) = ground arith
id-flip_planning n i = refl

id-with_status :
    (c : String) (s : ToolCallStatus) (i : ThreadItem) → item_id (with_status c s i) ≡ item_id i
id-with_status c s (tool_call n call) = ground arith
id-with_status c s i = refl

id-abort_last : (i : ThreadItem) → item_id (abort_last i) ≡ item_id i
id-abort_last (user n content aborted) = refl
id-abort_last (assistant n content aborted) = refl
id-abort_last i = refl

id-abort_before : (i j : ThreadItem) → item_id (abort_before i j) ≡ item_id i
id-abort_before (user n content aborted) (assistant m text late) = refl
id-abort_before (user n content aborted) j = refl
id-abort_before i j = refl

Ascending-mark_aborted :
    (lo hi : ℕ) (items : List ThreadItem)
    → Ascending lo hi items
    → Ascending lo hi (mark_aborted items)
unfolding mark_aborted
Ascending-mark_aborted lo hi [] h = h
Ascending-mark_aborted lo hi (i ∷ []) (l, h) = rw (id-abort_last i) (l, h)
Ascending-mark_aborted lo hi (i ∷ j ∷ []) (l, (m, h)) =
    rw (id-abort_before i j, id-abort_last j) (l, (m, h))
Ascending-mark_aborted lo hi (i ∷ j ∷ k ∷ items) (l, h) =
    (l, Ascending-mark_aborted (item_id i) hi (j ∷ k ∷ items) h)

abbrev pub IsNumbered : ChatState → Type 0
IsNumbered s = Ascending 0 s.id_seq s.thread

module _ (text_length : String → ℕ) where
  thinking-IsNumbered :
      (b : Bool) (c : String) (s : ChatState)
      → IsNumbered s
      → IsNumbered (
          if b
          then record s { thread = map (extend_planning c) s.thread }
          else push_item (λ n. planning n c true) s)
  thinking-IsNumbered true c s h =
      Ascending-map (extend_planning c) (id-extend_planning c) 0 s.id_seq s.thread h
  thinking-IsNumbered false c s h = Ascending-snoc 0 s.id_seq s.thread _ h refl

  token-IsNumbered :
      (last : Option ℕ) (c : String) (s : ChatState)
      → IsNumbered s
      → IsNumbered (apply_token last c s)
  token-IsNumbered none c s h = Ascending-snoc 0 s.id_seq s.thread _ h refl
  token-IsNumbered (some n) c s h =
      Ascending-map (extend_assistant n c) (id-extend_assistant n c) 0 s.id_seq s.thread h

  permission-IsNumbered :
      (b : Bool) (p : PermissionPromptState) (s : ChatState)
      → IsNumbered s
      → IsNumbered (apply_permission b p s)
  permission-IsNumbered true p s h = h
  permission-IsNumbered false p s h = h

  approve-IsNumbered :
      (p : Option PermissionPromptState) (s : ChatState)
      → IsNumbered s
      → IsNumbered (approve_prompt p s)
  approve-IsNumbered none s h = h
  approve-IsNumbered (some p) s h = h

  act-IsNumbered :
      (a : ChatAction) (s : ChatState) → IsNumbered s → IsNumbered (act text_length a s)
  unfolding act
  act-IsNumbered (event_arrives now (thinking c)) s h = thinking-IsNumbered (any _ s.thread) c s h
  act-IsNumbered (event_arrives now (token c)) s h =
      token-IsNumbered (last_assistant_message s.thread) c
        (record s { output_chars = s.output_chars + text_length c }) h
  act-IsNumbered (event_arrives now (tool_called id name description tier result)) s h =
      Ascending-snoc 0 s.id_seq s.thread _ h refl
  act-IsNumbered (event_arrives now (permission_required p)) s h =
      permission-IsNumbered (should_prompt p.tier p.tool_name s.session_permissions) p s h
  act-IsNumbered (event_arrives now (usage_update i o)) s h = h
  act-IsNumbered (event_arrives now (finished i o)) s h = h
  act-IsNumbered (push_user_message c) s h = Ascending-snoc 0 s.id_seq s.thread _ h refl
  act-IsNumbered (toggle_planning n) s h =
      Ascending-map (flip_planning n) (id-flip_planning n) 0 s.id_seq s.thread h
  act-IsNumbered (deny_permission c) s h =
      unfold update_tool_call_in_thread in
      Ascending-map (with_status c denied) (id-with_status c denied) 0 s.id_seq s.thread h
  act-IsNumbered (approve_always c) s h = approve-IsNumbered s.pending_prompt s h
  act-IsNumbered abort_stream s h = Ascending-mark_aborted 0 s.id_seq s.thread h
  act-IsNumbered (append_error now m) s h = Ascending-snoc 0 s.id_seq s.thread _ h refl
  act-IsNumbered reset_chat s h = omega arith
  act-IsNumbered a s h = h

  act_all-IsNumbered_from :
      (actions : List ChatAction) (s : ChatState)
      → IsNumbered s
      → IsNumbered (act_all text_length actions s)
  unfolding act_all
  act_all-IsNumbered_from [] s h = h
  act_all-IsNumbered_from (a ∷ rest) s h =
      act_all-IsNumbered_from rest (act text_length a s) (act-IsNumbered a s h)

  -- After any events and actions on a new chat the ids of the thread's items ascend strictly, from
  -- above 0 to at most the counter: no two items have the same id, and the next id is a new one.
  pub act_all-IsNumbered :
      (actions : List ChatAction) → IsNumbered (act_all text_length actions initial_chat)
  act_all-IsNumbered actions = act_all-IsNumbered_from actions initial_chat (omega arith)
