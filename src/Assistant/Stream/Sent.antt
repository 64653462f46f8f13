-- ===== src/Assistant/Stream/Sent.antt =====
-- useChatSse.ts: the events that the server sends, as they reach the store.
use ocs_testbench.Common.{
  ℕ, ◌≡◌, refl, ap, ◌∙◌, String, Bool, true, false, List, [], ◌∷◌, ◌++◌, Option, some, map, All,
  append-nil, append_assoc, ◌==◌, if◌then◌else◌,
}
use ocs_testbench.Assistant.{SseEvent}
use ocs_testbench.Assistant.Chat.{ChatState, act, event_arrives, end_stream}
use ocs_testbench.Assistant.Stream.{
  data_prefix, is_done, split_lines, Reading, chunk, closed, parse_data_line, apply_lines,
  apply_parts, read_stream,
}
use ocs_testbench.Assistant.Stream.Scanner.{start, scanning, scan, split_blank-eq-scan}
use ocs_testbench.Assistant.Stream.Chunks.{join, read_stream-join}

-- A text with no line break.
abbrev pub IsLine : List ℕ → Type 0
IsLine cs = All (λ c. (c == 10) ≡ false) cs

scan_line :
    (current cs rest : List ℕ)
    → IsLine cs
    → scan (scanning current false) (cs ++ 10 ∷ 10 ∷ rest)
      ≡ (((current ++ cs) ∷ (scan start rest).0), (scan start rest).1)
unfolding scan
scan_line current [] rest h = rw (append-nil current) refl
scan_line current (c ∷ cs) rest (l, h) =
    rw l (scan_line (current ++ c ∷ []) cs rest h ∙ rw (append_assoc current (c ∷ []) cs) refl)

lines_line : (current cs : List ℕ) → IsLine cs → split_lines current cs ≡ (current ++ cs) ∷ []
unfolding split_lines
lines_line current [] h = rw (append-nil current) refl
lines_line current (c ∷ cs) (l, h) =
    rw l (lines_line (current ++ c ∷ []) cs h ∙ rw (append_assoc current (c ∷ []) cs) refl)

module _ (parse_json : List ℕ → Option SseEvent) (print : SseEvent → List ℕ)
    (text_length : String → ℕ) (now : ℕ) where
  -- How the server sends an event.
  abbrev pub message : SseEvent → List ℕ
  message e = (data_prefix ++ print e) ++ 10 ∷ 10 ∷ []

  abbrev pub messages : List SseEvent → List ℕ
  messages [] = []
  messages (e ∷ es) = message e ++ messages es

  -- The events that the client takes of a list, then the end of the stream.
  abbrev pub play : List SseEvent → ChatState → ChatState
  play [] s = act text_length (end_stream now) s
  play (e ∷ es) s =
      let next = act text_length (event_arrives now e) s in
      let more = play es next in if is_done e then act text_length (end_stream now) next else more

  -- The server prints the event as one line, and the platform's JSON reader gives it back.
  abbrev pub IsReadable : SseEvent → Type 0
  IsReadable e = (parse_json (print e) ≡ some e) × IsLine (print e)

  prefixed : (e : SseEvent) → IsLine (print e) → IsLine (data_prefix ++ print e)
  prefixed e line = (refl, (refl, (refl, (refl, (refl, (refl, line))))))

  either : (b : Bool) (s : ChatState) → (if b then s else s) ≡ s
  either true s = refl
  either false s = refl

  branch :
      (b : Bool) (next : ChatState) (more : ChatState → ChatState × Bool)
      → (let here : ChatState × Bool = if b then (next, true) else (next, false) in
          if here.1 then here else more here.0)
        ≡ (if b then (next, true) else more next)
  branch true next more = refl
  branch false next more = refl

  ended_branch :
      (b : Bool) (next : ChatState) (more : ChatState × Bool)
      → act text_length (end_stream now) (if b then (next, true) else more).0 ≡ (
          if b
          then act text_length (end_stream now) next
          else act text_length (end_stream now) more.0)
  ended_branch true next more = refl
  ended_branch false next more = refl

  apply_message :
      (e : SseEvent) (parts : List (List ℕ)) (s : ChatState)
      → IsReadable e
      → apply_parts parse_json text_length now ((data_prefix ++ print e) ∷ parts) s ≡ (
          let next = act text_length (event_arrives now e) s in
          if is_done e then (next, true) else apply_parts parse_json text_length now parts next)
  unfolding apply_parts apply_lines parse_data_line
  apply_message e parts s (reads, line) =
      rw (lines_line [] (data_prefix ++ print e) (prefixed e line), reads)
        (branch (is_done e) (act text_length (event_arrives now e) s)
          (apply_parts parse_json text_length now parts))

  abbrev bodies : List SseEvent → List (List ℕ)
  bodies [] = []
  bodies (e ∷ es) = (data_prefix ++ print e) ∷ bodies es

  scan-messages :
      (es : List SseEvent) → All IsReadable es → scan start (messages es) ≡ (bodies es, start)
  unfolding scan
  scan-messages [] h = refl
  scan-messages (e ∷ es) ((reads, line), h) =
      ap (scan start) (append_assoc (data_prefix ++ print e) (10 ∷ 10 ∷ []) (messages es))
      ∙ scan_line [] (data_prefix ++ print e) (messages es) (prefixed e line)
      ∙ rw (scan-messages es h) refl

  -- What the loop does after the parts of a chunk, where the stream then ends.
  abbrev ended : ChatState × Bool → ChatState
  ended r = act text_length (end_stream now) r.0

  played :
      (es : List SseEvent) (s : ChatState)
      → All IsReadable es
      → ended (apply_parts parse_json text_length now (bodies es) s) ≡ play es s
  unfolding apply_parts
  played [] s h = refl
  played (e ∷ es) s (r, h) = rw (apply_message e (bodies es) s r) (
      ended_branch (is_done e) (act text_length (event_arrives now e) s) (
        apply_parts parse_json text_length now (bodies es)
          (act text_length (event_arrives now e) s))
      ∙ rw (played es (act text_length (event_arrives now e) s) h) refl)

  -- However the stream of an answer is cut into chunks, and whatever comes after its end, the chat
  -- store takes the events that the server sent, in order and up to the first `done`, and the stream
  -- is then ended, if the server prints each of them as one line that the platform's JSON reader
  -- reads as that event.
  pub read_stream-messages :
      (es : List SseEvent) (cs : List (List ℕ)) (readings : List Reading) (s : ChatState)
      → All IsReadable es
      → join cs ≡ messages es
      → read_stream parse_json text_length now [] (map chunk cs ++ closed ∷ readings) s ≡ play es s
  unfolding read_stream
  read_stream-messages es cs readings s readable h =
      read_stream-join parse_json text_length now cs (closed ∷ readings) s
      ∙ rw (h, split_blank-eq-scan [] (messages es), scan-messages es readable)
          (either (apply_parts parse_json text_length now (bodies es) s).1
            (ended (apply_parts parse_json text_length now (bodies es) s)))
      ∙ played es s readable
