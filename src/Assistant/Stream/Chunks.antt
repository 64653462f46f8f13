-- ===== src/Assistant/Stream/Chunks.antt =====
-- useChatSse.ts: the stream of an answer, cut into chunks in different ways.
use ocs_testbench.Common.{
  ℕ, ◌≡◌, refl, sym, ap, ◌∙◌, subst, String, Bool, true, false, List, [], ◌∷◌, ◌++◌, Option, map,
  append-nil, append_assoc, ◌==◌, ==_iff, Bool-cases, inl, inr, if◌then◌else◌,
}
use ocs_testbench.Assistant.{SseEvent}
use ocs_testbench.Assistant.Chat.{ChatState, act, end_stream}
use ocs_testbench.Assistant.Stream.{
  split_blank, split_lines, Reading, chunk, apply_lines, apply_parts, read_stream,
}
use ocs_testbench.Assistant.Stream.Scanner.{
  Scan, start, held, scanning, step, scan, scan-append, finish, split_blank-eq-scan,
}

-- A scanner that a text has led to, with the parts before it cut off, is led to by the text it holds.
abbrev IsClean : Scan → Type 0
IsClean s = scan start (held s) ≡ ([], s)

scan_one : (s : Scan) (c : ℕ) → scan s (c ∷ []) ≡ step s.current s.at_break c
unfolding scan
scan_one s c =
    ap (λ l. (l, (step s.current s.at_break c).1)) (append-nil (step s.current s.at_break c).0)

-- One more character that ends no part.
held_on :
    (s : Scan) (c : ℕ) (s' : Scan)
    → IsClean s
    → step s.current s.at_break c ≡ ([], s')
    → scan start (held s ++ c ∷ []) ≡ ([], s')
held_on s c s' clean e = rw (scan-append start (held s) (c ∷ []), clean, scan_one s c, e) refl

step-IsClean :
    (current : List ℕ) (b : Bool) (c : ℕ)
    → IsClean (scanning current b)
    → IsClean (step current b c).1
unfolding scan
step-IsClean current false c h = elim (Bool-cases (c == 10)) [
  | inl e ↦ rw e (
      subst (λ (d : ℕ). scan start (current ++ d ∷ []) ≡ ([], scanning current true))
        ((==_iff c 10).0 e)
        (held_on (scanning current false) c (scanning current true) h (rw e refl)))
  | inr e ↦
      rw e (held_on (scanning current false) c (scanning (current ++ c ∷ []) false) h (rw e refl))
]
step-IsClean current true c h = elim (Bool-cases (c == 10)) [
  | inl e ↦ rw e refl
  | inr e ↦ rw e (
      held_on (scanning current true) c (scanning ((current ++ 10 ∷ []) ++ c ∷ []) false) h
        (rw e refl))
]

start-IsClean : IsClean start
unfolding scan
start-IsClean = refl

scan-IsClean : (s : Scan) (cs : List ℕ) → IsClean s → IsClean (scan s cs).1
unfolding scan
scan-IsClean s [] h = h
scan-IsClean s (c ∷ cs) h =
    scan-IsClean (step s.current s.at_break c).1 cs (step-IsClean s.current s.at_break c h)

-- The buffer and a chunk split as the scanner goes on.
split_held :
    (s : Scan) (value : List ℕ)
    → IsClean s
    → split_blank [] (held s ++ value) ≡ finish (scan s value)
split_held s value h =
    split_blank-eq-scan [] (held s ++ value) ∙ rw (scan-append start (held s) value, h) refl

-- The text of all chunks.
abbrev pub join : List (List ℕ) → List ℕ
join [] = []
join (c ∷ cs) = c ++ join cs

module _ (parse_json : List ℕ → Option SseEvent) (text_length : String → ℕ) (now : ℕ) where
  apply_parts-append :
      (ps qs : List (List ℕ)) (s : ChatState)
      → apply_parts parse_json text_length now (ps ++ qs) s ≡ (
          let r = apply_parts parse_json text_length now ps s in
          if r.1 then r else apply_parts parse_json text_length now qs r.0)
  unfolding apply_parts
  apply_parts-append [] qs s = refl
  apply_parts-append (p ∷ ps) qs s =
      let here = apply_lines parse_json text_length now (split_lines [] p) s in
      elim (Bool-cases here.1) [
        | inl e ↦ rw (e, e) refl
        | inr e ↦ rw e (apply_parts-append ps qs here.0)
      ]

  -- What follows the splitting of a chunk.
  abbrev continue : List (List ℕ) × Scan → List Reading → ChatState → ChatState
  continue r readings s =
      let applied = apply_parts parse_json text_length now r.0 s in
      if applied.1
      then act text_length (end_stream now) applied.0
      else read_stream parse_json text_length now (held r.1) readings applied.0

  read_chunk :
      (sc : Scan) (value : List ℕ) (readings : List Reading) (s : ChatState)
      → IsClean sc
      → read_stream parse_json text_length now (held sc) (chunk value ∷ readings) s
        ≡ continue (scan sc value) readings s
  unfolding read_stream
  read_chunk sc value readings s h = rw (split_held sc value h) refl

  two_chunks :
      (sc : Scan) (a b : List ℕ) (readings : List Reading) (s : ChatState)
      → IsClean sc
      → read_stream parse_json text_length now (held sc) (chunk a ∷ chunk b ∷ readings) s
        ≡ read_stream parse_json text_length now (held sc) (chunk (a ++ b) ∷ readings) s
  two_chunks sc a b readings s h =
      rw
        (
          read_chunk sc a (chunk b ∷ readings) s h,
          read_chunk sc (a ++ b) readings s h,
          scan-append sc a b,
          apply_parts-append (scan sc a).0 (scan (scan sc a).1 b).0 s,
        )
        (elim (Bool-cases (apply_parts parse_json text_length now (scan sc a).0 s).1) [
          | inl e ↦ rw e refl
          | inr e ↦ rw e (
              read_chunk (scan sc a).1 b readings
                (apply_parts parse_json text_length now (scan sc a).0 s).0 (scan-IsClean sc a h))
        ])

  no_text :
      (readings : List Reading) (s : ChatState)
      → read_stream parse_json text_length now [] (chunk [] ∷ readings) s
        ≡ read_stream parse_json text_length now [] readings s
  unfolding read_stream
  no_text readings s = refl

  joined :
      (cs : List (List ℕ)) (first : List ℕ) (readings : List Reading) (s : ChatState)
      → read_stream parse_json text_length now [] (chunk first ∷ (map chunk cs ++ readings)) s
        ≡ read_stream parse_json text_length now [] (chunk (first ++ join cs) ∷ readings) s
  joined [] first readings s = rw (append-nil first) refl
  joined (c ∷ cs) first readings s =
      two_chunks start first c (map chunk cs ++ readings) s start-IsClean
      ∙ joined cs (first ++ c) readings s
      ∙ ap (λ l. read_stream parse_json text_length now [] (chunk l ∷ readings) s)
          (append_assoc first c (join cs))

  -- However an answer's stream is cut into chunks, what is read makes of the store what one chunk with
  -- the whole text would make of it.
  pub read_stream-join :
      (cs : List (List ℕ)) (readings : List Reading) (s : ChatState)
      → read_stream parse_json text_length now [] (map chunk cs ++ readings) s
        ≡ read_stream parse_json text_length now [] (chunk (join cs) ∷ readings) s
  read_stream-join cs readings s =
      sym (no_text (map chunk cs ++ readings) s) ∙ joined cs [] readings s
