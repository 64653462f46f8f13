-- ===== src/Debugger/Bridge.antt =====
-- web/src/pages/debugger/useExecutionSseDriver.ts and ExecutionSseBridge.tsx: the server's progress
-- messages of one execution, as events for the store. The connection itself is the platform's; a
-- message that does not parse is dropped before.
use ocs_testbench.Common.{
  ℕ, ◌+◌, ◌≡◌, refl, sym, subst, String, true, ◌||◌, List, [], ◌∷◌, Option, none, some, or_else,
  str_eq, if◌then◌else◌,
}
use ocs_testbench.Execution.{ExecutionState, Execution}
use ocs_testbench.Debugger.Store.{
  ExecutionStoreState, SseEventPayload, sleeping, sending, paused, completed, failed, aborted,
  is_terminal, transition, resume_first, ingest_sse,
}
use ocs_testbench.Debugger.Actions.{sse, step}
use ocs_testbench.Debugger.Machine.{terminal_stays}

pub record ProgressMessage : Type 0 where
  pub session_id : String
  pub state : String
  pub step : ℕ
  pub delay_sec : Option ℕ

-- The event that a message stands for, if any; `execution` is what was read last.
unfoldable pub payload_of : Execution → ProgressMessage → Option SseEventPayload
payload_of execution raw =
    if str_eq raw.state "sleeping"
    then some (sleeping raw.session_id raw.step (or_else raw.delay_sec 0))
    else if str_eq raw.state "running"
    then some (sending raw.session_id raw.step)
    else if str_eq raw.state "paused"
    then some (paused raw.session_id (raw.step + 1))
    else if str_eq raw.state "completed" || str_eq raw.state "success"
    then some (completed execution)
    else if str_eq raw.state "error" || str_eq raw.state "failure"
    then some (failed execution (some "Step failed"))
    else if str_eq raw.state "aborted"
    then some (aborted execution)
    else none

-- The texts by which the server says that a run has ended.
pub data IsEnd : String → Type 0 where
  completed_end : IsEnd "completed"
  success_end : IsEnd "success"
  error_end : IsEnd "error"
  failure_end : IsEnd "failure"
  aborted_end : IsEnd "aborted"

-- A run under way or paused.
abbrev pub IsLive : ExecutionState → Type 0
IsLive ExecutionState.running = Unit
IsLive ExecutionState.paused = Unit
IsLive x = ⊥

succeeds :
    (x : ExecutionState)
    → IsLive x
    → is_terminal (transition (resume_first x) ExecutionState.success) ≡ true
unfolding transition
succeeds ExecutionState.running live = refl
succeeds ExecutionState.paused live = refl
succeeds x live = absurd live

fails :
    (x : ExecutionState)
    → IsLive x
    → is_terminal (transition (resume_first x) ExecutionState.failure) ≡ true
unfolding transition
fails ExecutionState.running live = refl
fails ExecutionState.paused live = refl
fails x live = absurd live

aborts : (x : ExecutionState) → IsLive x → is_terminal (transition x ExecutionState.aborted) ≡ true
unfolding transition
aborts ExecutionState.running live = refl
aborts ExecutionState.paused live = refl
aborts x live = absurd live

module _ {ℓ} {P : Type ℓ} where
  abbrev pub ingest_if :
      (now : ℕ) → Option SseEventPayload → ExecutionStoreState P → ExecutionStoreState P
  unfolding ingest_sse
  ingest_if now none s = s
  ingest_if now (some payload) s = ingest_sse now payload s

  unfoldable pub on_message :
      (now : ℕ) → Execution → ProgressMessage → ExecutionStoreState P → ExecutionStoreState P
  unfolding payload_of ingest_if
  on_message now execution raw s = ingest_if now (payload_of execution raw) s

  unfoldable pub on_messages :
      (now : ℕ) → Execution → List ProgressMessage → ExecutionStoreState P → ExecutionStoreState P
  unfolding on_message
  on_messages now execution [] s = s
  on_messages now execution (m ∷ ms) s = on_messages now execution ms (on_message now execution m s)

  ingest_if-terminal :
      (now : ℕ) (p : Option SseEventPayload) (s : ExecutionStoreState P)
      → is_terminal s.state ≡ true
      → (ingest_if now p s).state ≡ s.state
  unfolding ingest_if step
  ingest_if-terminal now none s h = refl
  ingest_if-terminal now (some p) s h = terminal_stays (sse now p ∷ []) s h ((λ e. cc), tt)

  messages-terminal :
      (now : ℕ) (e : Execution) (ms : List ProgressMessage) (s : ExecutionStoreState P)
      → is_terminal s.state ≡ true
      → is_terminal (on_messages now e ms s).state ≡ true
  unfolding on_messages
  messages-terminal now e [] s h = h
  messages-terminal now e (m ∷ ms) s h =
      messages-terminal now e ms (on_message now e m s)
        (subst (λ x. is_terminal x ≡ true) (sym (ingest_if-terminal now (payload_of e m) s h)) h)

  ended-terminal :
      (now : ℕ) (e : Execution) (text : String) (m : ProgressMessage) (s : ExecutionStoreState P)
      → IsEnd text
      → m.state ≡ text
      → IsLive s.state
      → is_terminal (on_message now e m s).state ≡ true
  unfolding on_message payload_of ingest_if ingest_sse
  ended-terminal now e text m s completed_end h live = rw h (succeeds s.state live)
  ended-terminal now e text m s success_end h live = rw h (succeeds s.state live)
  ended-terminal now e text m s error_end h live = rw h (fails s.state live)
  ended-terminal now e text m s failure_end h live = rw h (fails s.state live)
  ended-terminal now e text m s aborted_end h live = rw h (aborts s.state live)

  -- A message that says that the run has ended, of a run that is under way or paused, takes the
  -- store to a terminal state, and no message after it takes the store out of the terminal states.
  pub on_messages-terminal :
      (now : ℕ) (e : Execution) (text : String) (m : ProgressMessage) (ms : List ProgressMessage)
      (s : ExecutionStoreState P)
      → IsEnd text
      → m.state ≡ text
      → IsLive s.state
      → is_terminal (on_messages now e (m ∷ ms) s).state ≡ true
  unfolding on_messages
  on_messages-terminal now e text m ms s end h live =
      messages-terminal now e ms (on_message now e m s) (ended-terminal now e text m s end h live)
