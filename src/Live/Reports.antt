-- ===== src/Live/Reports.antt =====
-- What the owner of the client is told of its status.
use ocs_testbench.Common.{ℕ, ◌≡◌, refl, false, List, [], ◌∷◌, Option, none, some, ◌==◌, if_either}
use ocs_testbench.Live.Client.{
  SseStatus, idle, connecting, closed, open_status, Report, status_is, SseClient, StreamStep,
  ClientStep, open_called, close_called, stream_does, opens, errs, sends, new_client, set_status,
  open_from, open_client, close_from, close_client, hear, is_heard, listener_of, client_step,
  client_steps, same_status,
}

module _ {ℓ} {E : Type ℓ} where
  -- The status that was reported last.
  abbrev pub last_status : List (Report E) → SseStatus
  last_status [] = idle
  last_status (status_is s ∷ rs) = s
  last_status (r ∷ rs) = last_status rs

  -- Each status that is reported differs from the one reported before.
  abbrev pub AreChanges : List (Report E) → Type 0
  AreChanges [] = Unit
  AreChanges (status_is s ∷ rs) = (same_status (last_status rs) s ≡ false) × AreChanges rs
  AreChanges (r ∷ rs) = AreChanges rs

  abbrev pub IsInformed : SseClient E → Type 0
  IsInformed c = (last_status c.reports ≡ c.status) × AreChanges c.reports

  status-IsInformed : (n : SseStatus) (c : SseClient E) → IsInformed c → IsInformed (set_status n c)
  unfolding set_status
  status-IsInformed n c (last, changes) =
      if_either IsInformed (same_status c.status n) c _ (λ e. (last, changes))
        (λ e. (refl, (rw last e, changes)))

  hear-IsInformed : (x : StreamStep E) (c : SseClient E) → IsInformed c → IsInformed (hear x c)
  unfolding hear
  hear-IsInformed opens c h = status-IsInformed open_status c h
  hear-IsInformed (errs r) c h =
      if_either IsInformed (r == 2) _ _ (λ e. status-IsInformed closed c h)
        (λ e. status-IsInformed connecting c h)
  hear-IsInformed (sends t (some e)) c h = h
  hear-IsInformed (sends t none) c h = h

  open-IsInformed : (o : Option ℕ) (c : SseClient E) → IsInformed c → IsInformed (open_from o c)
  unfolding open_from
  open-IsInformed (some k) c h = h
  open-IsInformed none c h = status-IsInformed connecting c h

  close-IsInformed : (o : Option ℕ) (c : SseClient E) → IsInformed c → IsInformed (close_from o c)
  unfolding close_from
  close-IsInformed none c h = h
  close-IsInformed (some k) c h = status-IsInformed closed _ h

  step-IsInformed :
      (x : ClientStep E) (c : SseClient E) → IsInformed c → IsInformed (client_step x c)
  unfolding client_step open_client close_client
  step-IsInformed open_called c h = open-IsInformed c.stream c h
  step-IsInformed close_called c h = close-IsInformed c.stream c h
  step-IsInformed (stream_does k x) c h =
      if_either IsInformed (is_heard k (listener_of x) c.streams) _ _ (λ e. hear-IsInformed x c h)
        (λ e. h)

  steps-IsInformed :
      (xs : List (ClientStep E)) (c : SseClient E) → IsInformed c → IsInformed (client_steps xs c)
  unfolding client_steps
  steps-IsInformed [] c h = h
  steps-IsInformed (x ∷ xs) c h = steps-IsInformed xs (client_step x c) (step-IsInformed x c h)

  -- However opens, closes and what the streams do interleave, the status that the owner was told
  -- last is the client's, and no status is told twice in a row.
  pub client_steps-IsInformed : (xs : List (ClientStep E)) → IsInformed (client_steps xs new_client)
  client_steps-IsInformed xs = steps-IsInformed xs new_client (refl, tt)
