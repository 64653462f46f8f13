-- ===== src/Assistant/Chat/Planning.antt =====
-- The planning blocks of a thread.
use ocs_testbench.Common.{
  ℕ, suc, ◌+◌, ◌≤◌, ◌≡◌, refl, inl, inr, Bool, true, false, List, [], ◌∷◌, ◌++◌, Option, none, some,
  map, any, Bool-cases, arith, String, if◌then◌else◌,
}
use ocs_testbench.Assistant.{
  ThreadItem, user, assistant, planning, tool_call, thinking, token, tool_called,
  permission_required, usage_update, finished, should_prompt, ToolCallStatus, denied,
  PermissionPromptState,
}
use ocs_testbench.Assistant.Chat.{
  ChatState, initial_chat, with_status, extend_planning, extend_assistant, flip_planning,
  apply_thinking, apply_token, apply_permission, abort_last, abort_before, mark_aborted,
  approve_prompt, ChatAction, act, act_all, event_arrives, push_user_message, toggle_planning,
  is_planning, deny_permission, approve_always, abort_stream, append_error, reset_chat,
  last_assistant_message, update_tool_call_in_thread,
}

abbrev pub planning_count : List ThreadItem → ℕ
planning_count [] = 0
planning_count (i ∷ items) =
    if is_planning i then suc (planning_count items) else planning_count items

count-snoc :
    (items : List ThreadItem) (i : ThreadItem)
    → planning_count (items ++ i ∷ []) ≡ planning_count items + planning_count (i ∷ [])
count-snoc [] i = ground arith
count-snoc (j ∷ items) i = ground (arith, count-snoc items i)

none_planned : (items : List ThreadItem) → any is_planning items ≡ false → planning_count items ≡ 0
none_planned [] h = refl
none_planned (i ∷ items) h = ground (arith, none_planned items)

count-map :
    (f : ThreadItem → ThreadItem)
    → ((i : ThreadItem) → is_planning (f i) ≡ is_planning i)
    → (items : List ThreadItem) → planning_count (map f items) ≡ planning_count items
count-map f same [] = refl
count-map f same (i ∷ items) = ground (arith, same i, count-map f same items)

planned-extend_planning :
    (c : String) (i : ThreadItem) → is_planning (extend_planning c i) ≡ is_planning i
planned-extend_planning c (planning n content collapsed) = refl
planned-extend_planning c i = refl

planned-extend_assistant :
    (n : ℕ) (c : String) (i : ThreadItem) → is_planning (extend_assistant n c i) ≡ is_planning i
planned-extend_assistant n c (assistant m content aborted) = ground arith
planned-extend_assistant n c i = refl

planned-flip_planning : (n : ℕ) (i : ThreadItem) → is_planning (flip_planning n i) ≡ is_planning i
planned-flip_planning n (planning m content collapsed) = ground arith
planned-flip_planning n i = refl

planned-with_status :
    (c : String) (s : ToolCallStatus) (i : ThreadItem)
    → is_planning (with_status c s i) ≡ is_planning i
planned-with_status c s (tool_call n call) = ground arith
planned-with_status c s i = refl

planned-abort_last : (i : ThreadItem) → is_planning (abort_last i) ≡ is_planning i
planned-abort_last (user n content aborted) = refl
planned-abort_last (assistant n content aborted) = refl
planned-abort_last i = refl

planned-abort_before : (i j : ThreadItem) → is_planning (abort_before i j) ≡ is_planning i
planned-abort_before (user n content aborted) (assistant m text late) = refl
planned-abort_before (user n content aborted) j = refl
planned-abort_before i j = refl

count-mark_aborted :
    (items : List ThreadItem) → planning_count (mark_aborted items) ≡ planning_count items
unfolding mark_aborted
count-mark_aborted [] = refl
count-mark_aborted (i ∷ []) = ground (arith, planned-abort_last i)
count-mark_aborted (i ∷ j ∷ []) = ground (arith, planned-abort_before i j, planned-abort_last j)
count-mark_aborted (i ∷ j ∷ k ∷ items) = ground (arith, count-mark_aborted (j ∷ k ∷ items))

abbrev HasOnePlan : ChatState → Type 0
HasOnePlan s = planning_count s.thread ≤ 1

-- Adding an item of another kind.
push-HasOnePlan :
    (items : List ThreadItem) (i : ThreadItem)
    → is_planning i ≡ false
    → planning_count items ≤ 1
    → planning_count (items ++ i ∷ []) ≤ 1
push-HasOnePlan items i other h = ground (arith, count-snoc items i)

thinking-HasOnePlan : (c : String) (s : ChatState) → HasOnePlan s → HasOnePlan (apply_thinking c s)
thinking-HasOnePlan c s h = elim (Bool-cases (any is_planning s.thread)) [
  | inl there ↦ rw there (rw (count-map (extend_planning c) (planned-extend_planning c) s.thread) h)
  | inr new ↦ rw new (
      omega
        (arith, count-snoc s.thread (planning (suc s.id_seq) c true), none_planned s.thread new))
]

token-HasOnePlan :
    (last : Option ℕ) (c : String) (s : ChatState)
    → HasOnePlan s
    → HasOnePlan (apply_token last c s)
token-HasOnePlan none c s h = push-HasOnePlan s.thread _ refl h
token-HasOnePlan (some n) c s h =
    rw (count-map (extend_assistant n c) (planned-extend_assistant n c) s.thread) h

permission-HasOnePlan :
    (b : Bool) (p : PermissionPromptState) (s : ChatState)
    → HasOnePlan s
    → HasOnePlan (apply_permission b p s)
permission-HasOnePlan true p s h = h
permission-HasOnePlan false p s h = h

approve-HasOnePlan :
    (p : Option PermissionPromptState) (s : ChatState)
    → HasOnePlan s
    → HasOnePlan (approve_prompt p s)
approve-HasOnePlan none s h = h
approve-HasOnePlan (some p) s h = h

module _ (text_length : String → ℕ) where
  act-HasOnePlan :
      (a : ChatAction) (s : ChatState) → HasOnePlan s → HasOnePlan (act text_length a s)
  unfolding act
  act-HasOnePlan (event_arrives now (thinking c)) s h = thinking-HasOnePlan c s h
  act-HasOnePlan (event_arrives now (token c)) s h =
      token-HasOnePlan (last_assistant_message s.thread) c
        (record s { output_chars = s.output_chars + text_length c }) h
  act-HasOnePlan (event_arrives now (tool_called id name description tier result)) s h =
      push-HasOnePlan s.thread _ refl h
  act-HasOnePlan (event_arrives now (permission_required p)) s h =
      permission-HasOnePlan (should_prompt p.tier p.tool_name s.session_permissions) p s h
  act-HasOnePlan (event_arrives now (usage_update i o)) s h = h
  act-HasOnePlan (event_arrives now (finished i o)) s h = h
  act-HasOnePlan (push_user_message c) s h = push-HasOnePlan s.thread _ refl h
  act-HasOnePlan (toggle_planning n) s h =
      rw (count-map (flip_planning n) (planned-flip_planning n) s.thread) h
  act-HasOnePlan (deny_permission c) s h =
      unfold update_tool_call_in_thread in
      rw (count-map (with_status c denied) (planned-with_status c denied) s.thread) h
  act-HasOnePlan (approve_always c) s h = approve-HasOnePlan s.pending_prompt s h
  act-HasOnePlan abort_stream s h = rw (count-mark_aborted s.thread) h
  act-HasOnePlan (append_error now m) s h = push-HasOnePlan s.thread _ refl h
  act-HasOnePlan reset_chat s h = omega arith
  act-HasOnePlan a s h = h

  act_all-HasOnePlan_from :
      (actions : List ChatAction) (s : ChatState)
      → HasOnePlan s
      → HasOnePlan (act_all text_length actions s)
  unfolding act_all
  act_all-HasOnePlan_from [] s h = h
  act_all-HasOnePlan_from (a ∷ rest) s h =
      act_all-HasOnePlan_from rest (act text_length a s) (act-HasOnePlan a s h)

  -- After any events and actions on a new chat, however many turns it has, the thread holds at most
  -- one planning block.
  pub act_all-HasOnePlan :
      (actions : List ChatAction)
      → planning_count (act_all text_length actions initial_chat).thread ≤ 1
  act_all-HasOnePlan actions = act_all-HasOnePlan_from actions initial_chat (omega arith)
