-- ===== src/Live/Quiet.antt =====
-- Which streams the client listens to.
use ocs_testbench.Common.{
  ℕ, ◌≡◌, refl, sym, ap, ◌∙◌, subst, ◌⊎◌, inl, inr, Bool, true, false, ◌&&◌, ◌||◌, List, [], ◌∷◌,
  Option, none, some, map, All, length, ◌==◌, ==_iff, if◌then◌else◌, if_either,
}
use ocs_testbench.Live.Client.{
  SseStatus, connecting, closed, open_status, Listener, on_open, on_error, on_type, Stream,
  SseClient, StreamStep, ClientStep, open_called, close_called, stream_does, opens, errs, sends,
  sse_event_types, new_client, set_status, open_client, open_from, close_from, detach, close_client,
  hear, is_heard, client_step, client_steps, same_status, at_stream, listener_of,
}

same_number : {o : Option ℕ} {j k : ℕ} → o ≡ some j → o ≡ some k → k ≡ j
same_number e held = cc

-- No stream has a listener.
abbrev pub AreSilent : List Stream → Type 0
AreSilent ss = All (λ (s : Stream). s.listeners ≡ []) ss

and_false : (a b : Bool) → b ≡ false → (a && false || b) ≡ false
and_false true b h = h
and_false false b h = h

silent-is_heard : (k : ℕ) (l : Listener) (ss : List Stream) → AreSilent ss → is_heard k l ss ≡ false
silent-is_heard k l [] h = refl
silent-is_heard k l (s ∷ ss) (quiet, h) = rw quiet (and_false _ _ (silent-is_heard k l ss h))

module _ {ℓ} {E : Type ℓ} where
  -- Only the stream in use has listeners: all those that `open` sets.
  Quiet : SseClient E → Type 0
  Quiet c =
      ((c.stream ≡ none) × AreSilent c.streams)
      ⊎ ((k : ℕ) × (olds : List Stream) × (c.stream ≡ some k)
          × (c.listeners ≡ sse_event_types)
          × (c.open_listener ≡ true)
          × (c.error_listener ≡ true)
          × (c.streams
              ≡ record { number = k; listeners = on_open ∷ on_error ∷ map on_type sse_event_types }
                ∷ olds)
          × AreSilent olds)

  status-Quiet : (n : SseStatus) (c : SseClient E) → Quiet c → Quiet (set_status n c)
  unfolding set_status Quiet
  status-Quiet n c q = if_either Quiet (same_status c.status n) c _ (λ e. q) (λ e. q)

  hear-Quiet : (x : StreamStep E) (c : SseClient E) → Quiet c → Quiet (hear x c)
  unfolding hear Quiet
  hear-Quiet opens c q = status-Quiet open_status c q
  hear-Quiet (errs r) c q =
      if_either Quiet (r == 2) _ _ (λ e. status-Quiet closed c q) (λ e. status-Quiet connecting c q)
  hear-Quiet (sends t (some e)) c q = q
  hear-Quiet (sends t none) c q = q

  Closed : SseClient E → Type 0
  Closed c = (c.stream ≡ none) × AreSilent c.streams

  status-streams : (n : SseStatus) (c : SseClient E) → (set_status n c).streams ≡ c.streams
  unfolding set_status
  status-streams n c =
      if_either (λ (d : SseClient E). d.streams ≡ c.streams) (same_status c.status n) c _
        (λ e. refl) (λ e. refl)

  open_from-Quiet :
      (o : Option ℕ) (c : SseClient E) → c.stream ≡ o → Quiet c → Quiet (open_from o c)
  unfolding open_from Quiet
  open_from-Quiet (some k) c e q = q
  open_from-Quiet none c e (inl (none_open, silent)) = inr (
    length (set_status connecting c).streams,
    (set_status connecting c).streams,
    refl,
    refl,
    refl,
    refl,
    refl,
    rw (status-streams connecting c) silent,
  )
  open_from-Quiet none c e (inr (k, olds, held, types, o, r, streams, silent)) = cc

  detached :
      (k : ℕ) (c : SseClient E) (olds : List Stream)
      → c.listeners ≡ sse_event_types
      → c.open_listener ≡ true
      → c.error_listener ≡ true
      → AreSilent olds
      → AreSilent (at_stream k (detach c) olds)
  detached k c [] types o r h = tt
  detached k c (s ∷ olds) types o r (quiet, h) = (
    if_either (λ (u : Stream). u.listeners ≡ []) (s.number == k) (detach c s) s
        (λ e. rw (types, o, r, quiet) refl) (λ e. quiet),
    detached k c olds types o r h,
  )

  cut_off :
      (j k : ℕ) (c : SseClient E) (olds : List Stream)
      → k ≡ j
      → c.listeners ≡ sse_event_types
      → c.open_listener ≡ true
      → c.error_listener ≡ true
      → c.streams
        ≡ record { number = k; listeners = on_open ∷ on_error ∷ map on_type sse_event_types } ∷ olds
      → AreSilent olds
      → AreSilent (at_stream j (detach c) c.streams)
  cut_off j k c olds same types o r streams silent =
      subst (λ ss. AreSilent (at_stream j (detach c) ss)) (sym streams)
        (rw ((==_iff k j).1 same, types, o, r) refl, detached j c olds types o r silent)

  close_from-Closed :
      (o : Option ℕ) (c : SseClient E) → c.stream ≡ o → Quiet c → Closed (close_from o c)
  unfolding close_from Quiet Closed set_status
  close_from-Closed none c e (inl closed_already) = closed_already
  close_from-Closed none c e (inr (k, olds, held, types, o, r, streams, silent)) = cc
  close_from-Closed (some j) c e (inl (none_open, silent)) = cc
  close_from-Closed (some j) c e (inr (k, olds, held, types, o, r, streams, silent)) =
      let gone : AreSilent (at_stream j (detach c) c.streams) =
        cut_off j k c olds (same_number e held) types o r streams silent in
      if_either Closed _ _ _ (λ b. (refl, gone)) (λ b. (refl, gone))

  step-Quiet : (x : ClientStep E) (c : SseClient E) → Quiet c → Quiet (client_step x c)
  unfolding client_step open_client close_client Quiet Closed
  step-Quiet open_called c q = open_from-Quiet c.stream c refl q
  step-Quiet close_called c q = inl (close_from-Closed c.stream c refl q)
  step-Quiet (stream_does k x) c q =
      if_either Quiet (is_heard k (listener_of x) c.streams) _ _ (λ e. hear-Quiet x c q) (λ e. q)

  steps-Quiet : (xs : List (ClientStep E)) (c : SseClient E) → Quiet c → Quiet (client_steps xs c)
  unfolding client_steps
  steps-Quiet [] c q = q
  steps-Quiet (x ∷ xs) c q = steps-Quiet xs (client_step x c) (step-Quiet x c q)

  silent-steps :
      (ds : List (ℕ × StreamStep E)) (c : SseClient E)
      → AreSilent c.streams
      → client_steps (map (λ d. stream_does d.0 d.1) ds) c ≡ c
  unfolding client_steps client_step
  silent-steps [] c h = refl
  silent-steps ((k, x) ∷ ds) c h =
      ap (λ b. client_steps (map (λ d. stream_does d.0 d.1) ds) (if b then hear x c else c))
        (silent-is_heard k (listener_of x) c.streams h)
      ∙ silent-steps ds c h

  -- After a close, whatever came before it, nothing that a stream does reaches the client, until
  -- the client is opened again.
  pub close-silent :
      (xs : List (ClientStep E)) (ds : List (ℕ × StreamStep E))
      → let c : SseClient E = close_client (client_steps xs new_client) in
        client_steps (map (λ d. stream_does d.0 d.1) ds) c ≡ c
  unfolding close_client Closed Quiet
  close-silent xs ds =
      let c : SseClient E = client_steps xs new_client in
      let (shut, silent) =
        close_from-Closed c.stream c refl (steps-Quiet xs new_client (inl (refl, tt))) in
      silent-steps ds (close_client c) silent
