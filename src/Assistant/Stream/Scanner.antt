-- ===== src/Assistant/Stream/Scanner.antt =====
-- The splitting of the stream at blank lines, as a scanner that takes one character at a time.
use ocs_testbench.Common.{
  ℕ, ◌≡◌, refl, sym, ap, Bool, true, false, List, [], ◌∷◌, ◌++◌, append_assoc, arith, ◌==◌, ==_iff,
  if◌then◌else◌,
}
use ocs_testbench.Assistant.Stream.{split_blank}

-- The part that was begun, and whether a line break after it was read.
pub record Scan : Type 0 where
  pub current : List ℕ
  pub at_break : Bool

abbrev pub start : Scan
start = record { current = []; at_break = false }

-- The text that the scanner holds.
abbrev pub held : Scan → List ℕ
held s = if s.at_break then s.current ++ 10 ∷ [] else s.current

abbrev pub scanning : List ℕ → Bool → Scan
scanning current at_break = record { current = current; at_break = at_break }

abbrev pub step : List ℕ → Bool → ℕ → List (List ℕ) × Scan
step current false c =
    if c == 10 then ([], scanning current true) else ([], scanning (current ++ c ∷ []) false)
step current true c =
    if c == 10 then (current ∷ [], start) else ([], scanning ((current ++ 10 ∷ []) ++ c ∷ []) false)

unfoldable pub scan : Scan → List ℕ → List (List ℕ) × Scan
scan s [] = ([], s)
scan s (c ∷ cs) =
    let (parts, s') = step s.current s.at_break c in
    let (more, s'') = scan s' cs in (parts ++ more, s'')

pub scan-append :
    (s : Scan) (a b : List ℕ)
    → scan s (a ++ b) ≡ ((scan s a).0 ++ (scan (scan s a).1 b).0, (scan (scan s a).1 b).1)
unfolding scan
scan-append s [] b = refl
scan-append s (c ∷ a) b =
    let st = step s.current s.at_break c in
    rw (scan-append st.1 a b) (
      ap (λ l. (l, (scan (scan st.1 a).1 b).1))
        (sym (append_assoc st.0 (scan st.1 a).0 (scan (scan st.1 a).1 b).0)))

-- The parts that a scan found, and what it holds.
abbrev pub finish : List (List ℕ) × Scan → List (List ℕ) × List ℕ
finish r = (r.0, held r.1)

pub split_blank-eq-scan :
    (current cs : List ℕ) → split_blank current cs ≡ finish (scan (scanning current false) cs)
unfolding split_blank scan
split_blank-eq-scan current [] = refl
split_blank-eq-scan current (c ∷ []) = ground (arith, ==_iff c 10)
split_blank-eq-scan current (c ∷ d ∷ rest) = ground (
  arith,
  ==_iff c 10,
  ==_iff d 10,
  split_blank-eq-scan [] rest,
  split_blank-eq-scan (current ++ c ∷ []) (d ∷ rest),
)
