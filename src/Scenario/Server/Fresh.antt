-- ===== src/Scenario/Server/Fresh.antt =====
-- scenariosFakeApi.ts: the loop of `newScenarioId`.
use ocs_testbench.Common.{
  ℕ, zero, suc, ◌+◌, ◌≤◌, ◌<◌, ◌≡◌, refl, sym, ap, ◌∙◌, inl, inr, true, false, not, ◌||◌, List, [],
  ◌∷◌, some, length, filter_by, arith, str_eq, eq_iff, Bool-cases,
}
use ocs_testbench.Common.Decimal.{pad_three_inj}
use ocs_testbench.Scenario.{Scenario}
use ocs_testbench.Scenario.Server.{scenario_id, is_taken, free_number}

-- The scenarios but for those of one id.
abbrev others : ℕ → List Scenario → List Scenario
others n ss = filter_by (λ s. not (str_eq s.id (scenario_id n))) ss

length-others_le : (n : ℕ) (ss : List Scenario) → length (others n ss) ≤ length ss
length-others_le n [] = omega arith
length-others_le n (s ∷ ss) = ground (arith, length-others_le n ss)

length-others_lt :
    (n : ℕ) (ss : List Scenario) → is_taken n ss ≡ true → length (others n ss) < length ss
length-others_lt n [] h = cc
length-others_lt n (s ∷ ss) h = ground (arith, length-others_lt n ss, length-others_le n ss)

-- Another number's id is taken as before.
is_taken-others : (n m : ℕ) (ss : List Scenario) → n < m → is_taken m (others n ss) ≡ is_taken m ss
is_taken-others n m [] l = refl
is_taken-others n m (s ∷ ss) l = elim (Bool-cases (str_eq s.id (scenario_id n))) [
  | inl e ↦ rw e (is_taken-others n m ss l ∙ sym (rw (not_this e) refl))
  | inr e ↦ rw e (ap (λ b. str_eq s.id (scenario_id m) || b) (is_taken-others n m ss l))
]
  where
    not_this : str_eq s.id (scenario_id n) ≡ true → str_eq s.id (scenario_id m) ≡ false
    not_this e = elim (Bool-cases (str_eq s.id (scenario_id m))) [
      | inl t ↦ absurd (
          omega (
            arith,
            pad_three_inj "scn-user-" n m
                (sym ((eq_iff s.id (scenario_id n)).0 e) ∙ (eq_iff s.id (scenario_id m)).0 t),
          ))
      | inr f ↦ f
    ]

free_number-others :
    (fuel n m : ℕ) (ss : List Scenario)
    → n < m
    → free_number fuel m (others n ss) ≡ free_number fuel m ss
unfolding free_number
free_number-others zero n m ss l = refl
free_number-others (suc fuel) n m ss l =
    rw (is_taken-others n m ss l, free_number-others fuel n (m + 1) ss (omega arith)) refl

-- With more fuel than there are scenarios the search ends at a number whose id no scenario has.
pub free_number_total :
    (fuel n : ℕ) (ss : List Scenario)
    → length ss < fuel
    → (k : ℕ) × (free_number fuel n ss ≡ some k) × (n ≤ k) × (is_taken k ss ≡ false)
unfolding free_number
free_number_total zero n ss h = absurd (omega arith)
free_number_total (suc fuel) n ss h = elim (Bool-cases (is_taken n ss)) [
  | inr free ↦ (n, rw free refl, omega arith, free)
  | inl taken ↦
      let (k, found, later, free) =
        free_number_total fuel (n + 1) (others n ss) (omega (arith, length-others_lt n ss taken)) in
      (
        k,
        rw taken (sym (free_number-others fuel n (n + 1) ss (omega arith)) ∙ found),
        omega (arith, later),
        sym (is_taken-others n k ss (omega (arith, later))) ∙ free,
      )
]
