-- ===== src/Assistant/Chat/Grants.antt =====
-- Which tools run without a prompt.
use ocs_testbench.Common.{
  ℕ, ◌+◌, ◌≡◌, ◌≢◌, refl, sym, ◌∙◌, ap, ◌⊎◌, inl, inr, Bool, true, false, List, [], ◌∷◌, ◌++◌,
  Option, none, some, Bool-cases, arith, String, str_eq, eq_iff,
}
use ocs_testbench.Common.Objects.{has_key, has_key-insert}
use ocs_testbench.Assistant.{
  PermissionTier, write, destructive, readonly, PermissionPromptState, SessionPermissions, yes,
  grant_always, should_prompt, permission_required, thinking, token, tool_called, usage_update,
  finished,
}
use ocs_testbench.Assistant.Chat.{
  ChatState, initial_chat, apply_thinking, apply_token, apply_permission, approve_prompt,
  ChatAction, act, act_all, event_arrives, approve_always, reset_chat, last_assistant_message,
}

write_of :
    (tool : String) (tier : PermissionTier) (permissions : SessionPermissions)
    → tier ≢ readonly
    → should_prompt tier tool permissions ≡ false
    → tier ≡ write
unfolding should_prompt
write_of tool readonly permissions ne h = absurd (ne refl)
write_of tool write permissions ne h = refl
write_of tool destructive permissions ne h = cc

module _ (text_length : String → ℕ) (tool : String) where
  -- Some action of the run answered "Always" to a prompt for the tool.
  abbrev pub WasApproved : List ChatAction → ChatState → Type 0
  WasApproved actions s =
      (before : List ChatAction) × (call_id : String) × (after : List ChatAction)
      × (p : PermissionPromptState) × (actions ≡ before ++ approve_always call_id ∷ after)
      × ((act_all text_length before s).pending_prompt ≡ some p)
      × (p.tool_name ≡ tool)

  later :
      (a : ChatAction) (actions : List ChatAction) (s : ChatState)
      → WasApproved actions (act text_length a s)
      → WasApproved (a ∷ actions) s
  unfolding act_all
  later a actions s (before, call_id, after, p, e, waits, named) =
      (a ∷ before, call_id, after, p, ap (λ l. a ∷ l) e, waits, named)

  -- The action answers "Always" to a prompt for the tool.
  abbrev Approves : ChatAction → ChatState → Type 0
  Approves a s =
      (call_id : String) × (p : PermissionPromptState) × (a ≡ approve_always call_id)
      × (s.pending_prompt ≡ some p)
      × (p.tool_name ≡ tool)

  abbrev granted : ChatState → Bool
  granted s = has_key tool s.session_permissions

  thinking-granted : (c : String) (s : ChatState) → granted (apply_thinking c s) ≡ granted s
  thinking-granted c s = ground arith

  token-granted :
      (last : Option ℕ) (c : String) (s : ChatState) → granted (apply_token last c s) ≡ granted s
  token-granted none c s = refl
  token-granted (some n) c s = refl

  permission-granted :
      (b : Bool) (p : PermissionPromptState) (s : ChatState)
      → granted (apply_permission b p s) ≡ granted s
  permission-granted true p s = refl
  permission-granted false p s = refl

  approve-granted :
      (o : Option PermissionPromptState) (s : ChatState) (call_id : String)
      → s.pending_prompt ≡ o
      → granted (approve_prompt o s) ≡ true
      → (granted s ≡ true) ⊎ Approves (approve_always call_id) s
  approve-granted none s call_id e h = inl h
  approve-granted (some p) s call_id e h = elim (Bool-cases (str_eq p.tool_name tool)) [
    | inl same ↦ inr (call_id, p, refl, e, (eq_iff p.tool_name tool).0 same)
    | inr other ↦ inl (
        unfold grant_always in
        ground (arith, has_key-insert p.tool_name tool yes s.session_permissions))
  ]

  -- A tool that has a grant after an action had it before, or the action gives it.
  act-granted :
      (a : ChatAction) (s : ChatState)
      → granted (act text_length a s) ≡ true
      → (granted s ≡ true) ⊎ Approves a s
  unfolding act
  act-granted (event_arrives now (thinking c)) s h = inl (sym (thinking-granted c s) ∙ h)
  act-granted (event_arrives now (token c)) s h = inl (
      sym (
        token-granted (last_assistant_message s.thread) c
          (record s { output_chars = s.output_chars + text_length c }))
      ∙ h)
  act-granted (event_arrives now (tool_called id name description tier result)) s h = inl h
  act-granted (event_arrives now (permission_required p)) s h =
      inl
        (sym (permission-granted (should_prompt p.tier p.tool_name s.session_permissions) p s) ∙ h)
  act-granted (event_arrives now (usage_update i o)) s h = inl h
  act-granted (event_arrives now (finished i o)) s h = inl h
  act-granted (approve_always c) s h = approve-granted s.pending_prompt s c refl h
  act-granted reset_chat s h = absurd (unfold has_key in cc)
  act-granted a s h = inl h

  act_all-granted :
      (actions : List ChatAction) (s : ChatState)
      → granted (act_all text_length actions s) ≡ true
      → (granted s ≡ true) ⊎ WasApproved actions s
  unfolding act_all
  act_all-granted [] s h = inl h
  act_all-granted (a ∷ actions) s h = elim (act_all-granted actions (act text_length a s) h) [
    | inr found ↦ inr (later a actions s found)
    | inl now ↦ elim (act-granted a s now) [
      | inl earlier ↦ inl earlier
      | inr (call_id, p, e, waits, named) ↦
          inr ([], call_id, actions, p, ap (λ x. x ∷ actions) e, waits, named)
    ]
  ]

  quiet :
      (tier : PermissionTier) (permissions : SessionPermissions)
      → tier ≢ readonly
      → should_prompt tier tool permissions ≡ false
      → has_key tool permissions ≡ true
  unfolding should_prompt
  quiet readonly permissions ne h = absurd (ne refl)
  quiet write permissions ne h = ground arith
  quiet destructive permissions ne h = cc

  -- In a chat that began new, a tool that is not read-only runs without a prompt only if it is of
  -- the tier "write" and an earlier action answered "Always" to a prompt for that tool.
  pub silent-WasApproved :
      (actions : List ChatAction) (tier : PermissionTier)
      → tier ≢ readonly
      → should_prompt tier tool (act_all text_length actions initial_chat).session_permissions
        ≡ false
      → (tier ≡ write) × WasApproved actions initial_chat
  silent-WasApproved actions tier ne h =
      let have : granted (act_all text_length actions initial_chat) ≡ true =
        quiet tier (act_all text_length actions initial_chat).session_permissions ne h in
      (
        write_of tool tier (act_all text_length actions initial_chat).session_permissions ne h,
        elim (act_all-granted actions initial_chat have) [
          | inl granted_first ↦ absurd (unfold has_key in cc)
          | inr found ↦ found
        ],
      )
