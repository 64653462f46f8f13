-- ===== src/Assistant/Chat/Tokens.antt =====
-- The streamed tokens of an answer.
use ocs_testbench.Common.{
  ℕ, suc, ◌+◌, ◌<◌, ◌≤◌, ◌≡◌, refl, ◌∙◌, ap, Bool, false, List, [], ◌∷◌, ◌++◌, none, some, map,
  arith, String, ==_iff,
}
use ocs_testbench.Common.Text.{◌⧺◌}
use ocs_testbench.Assistant.{ThreadItem, assistant, token}
use ocs_testbench.Assistant.Chat.{
  ChatState, initial_chat, item_id, assistant_id, last_assistant_message, extend_assistant,
  apply_event, ChatAction, act_all,
}
use ocs_testbench.Assistant.Chat.Ids.{Ascending, act_all-IsNumbered}

last_assistant-snoc :
    (items : List ThreadItem) (i : ThreadItem)
    → last_assistant_message (items ++ i ∷ []) ≡ assistant_id i
unfolding last_assistant_message
last_assistant-snoc [] i = refl
last_assistant-snoc (j ∷ []) i = refl
last_assistant-snoc (j ∷ k ∷ items) i = last_assistant-snoc (k ∷ items) i

extend_other : (n : ℕ) (c : String) (i : ThreadItem) → item_id i < n → extend_assistant n c i ≡ i
extend_other n c (assistant m content aborted) h = ground (arith, ==_iff m n)
extend_other n c i h = refl

Ascending-le : (lo hi : ℕ) (items : List ThreadItem) → Ascending lo hi items → lo ≤ hi
Ascending-le lo hi [] h = h
Ascending-le lo hi (i ∷ items) (l, h) = omega (arith, l, Ascending-le (item_id i) hi items h)

-- Extending the newest item leaves the items before it alone.
map_extend :
    (lo hi : ℕ) (c : String) (items : List ThreadItem) (content : String) (b : Bool)
    → Ascending lo hi items
    → map (extend_assistant (suc hi) c) (items ++ assistant (suc hi) content b ∷ [])
      ≡ items ++ assistant (suc hi) (content ⧺ c) b ∷ []
map_extend lo hi c [] content b h = ground (arith, ==_iff (suc hi) (suc hi))
map_extend lo hi c (i ∷ items) content b (l, h) =
    rw (extend_other (suc hi) c i (omega (arith, Ascending-le (item_id i) hi items h)))
      (ap (λ r. i ∷ r) (map_extend (item_id i) hi c items content b h))

abbrev pub join_from : String → List String → String
join_from content [] = content
join_from content (c ∷ cs) = join_from (content ⧺ c) cs

module _ (text_length : String → ℕ) where
  abbrev pub token_events : ℕ → List String → ChatState → ChatState
  token_events now [] s = s
  token_events now (c ∷ cs) s = token_events now cs (apply_event text_length now (token c) s)

  abbrev pub total_length : List String → ℕ
  total_length [] = 0
  total_length (c ∷ cs) = text_length c + total_length cs

  -- What a turn's tokens make of the thread and of the count of characters.
  abbrev pub Streamed : ChatState → List ThreadItem → ℕ → ℕ → Type 0
  Streamed s items n chars = (s.thread ≡ items) × (s.id_seq ≡ n) × (s.output_chars ≡ chars)

  tokens_extend :
      (now : ℕ) (cs : List String) (s : ChatState) (items : List ThreadItem) (hi k : ℕ)
      (content : String)
      → Ascending 0 hi items
      → Streamed s (items ++ assistant (suc hi) content false ∷ []) (suc hi) k
      → Streamed
          (token_events now cs s)
          (items ++ assistant (suc hi) (join_from content cs) false ∷ [])
          (suc hi)
          (k + total_length cs)
  unfolding apply_event
  tokens_extend now [] s items hi k content h (p, q, r) = (p, q, omega (arith, r))
  tokens_extend now (c ∷ cs) s items hi k content h (p, q, r) =
      let last : last_assistant_message s.thread ≡ some (suc hi) =
        ap last_assistant_message p
        ∙ last_assistant-snoc items (assistant (suc hi) content false) in
      let (a, b, e) =
        tokens_extend now cs (apply_event text_length now (token c) s) items hi (k + text_length c)
          (content ⧺ c) h
          (rw last (
            ap (map (extend_assistant (suc hi) c)) p ∙ map_extend 0 hi c items content false h,
            q,
            omega (arith, r),
          )) in
      (a, b, e ∙ omega arith)

  -- In every reachable state whose thread does not end in an assistant message, the tokens of an
  -- answer add one assistant message to the thread, under a new id, whose content is their texts
  -- in order, and their lengths to the count of characters.
  pub token_events_lem :
      (actions : List ChatAction) (now : ℕ) (c : String) (cs : List String)
      → last_assistant_message (act_all text_length actions initial_chat).thread ≡ none
      → let s = act_all text_length actions initial_chat in
        Streamed
          (token_events now (c ∷ cs) s)
          (s.thread ++ assistant (suc s.id_seq) (join_from c cs) false ∷ [])
          (suc s.id_seq)
          (s.output_chars + total_length (c ∷ cs))
  unfolding apply_event
  token_events_lem actions now c cs no_last =
      let s = act_all text_length actions initial_chat in
      let (a, b, e) =
        tokens_extend now cs (apply_event text_length now (token c) s) s.thread s.id_seq
          (s.output_chars + text_length c) c (act_all-IsNumbered text_length actions)
          (rw no_last (refl, refl, refl)) in
      (a, b, e ∙ omega arith)
