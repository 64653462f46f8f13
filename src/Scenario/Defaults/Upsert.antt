-- ===== src/Scenario/Defaults/Upsert.antt =====
-- Which variable a name stands for after additions have been upserted.
use ocs_testbench.Common.{
  ◌≡◌, refl, sym, ◌∙◌, ap, subst, String, true, false, not, List, [], ◌∷◌, ◌++◌, Option, none, some,
  map, filter_by, or_else, inl, inr, Bool-cases, Option-cases, str_eq, eq_iff, if◌then◌else◌,
}
use ocs_testbench.Common.Objects.{lookup, insert, spread, lookup-insert}
use ocs_testbench.Scenario.{Variable}
use ocs_testbench.Scenario.Defaults.Variables.{variable_map, has_name, upsert_variables}

-- `variables.find((v) => v.name === name)`
abbrev pub find_name : String → List Variable → Option Variable
find_name n [] = none
find_name n (v ∷ vs) = if str_eq v.name n then some v else find_name n vs

abbrev pub first_of : Option Variable → Option Variable → Option Variable
first_of none o = o
first_of (some v) o = some v

abbrev pub HasDistinctNames : List Variable → Type 0
HasDistinctNames [] = Unit
HasDistinctNames (v ∷ vs) = (find_name v.name vs ≡ none) × HasDistinctNames vs

find_name-name :
    (n : String) (vs : List Variable) (v : Variable) → find_name n vs ≡ some v → v.name ≡ n
find_name-name n [] v h = cc
find_name-name n (w ∷ vs) v h = elim (Bool-cases (str_eq w.name n)) [
  | inl same ↦
      let found : some w ≡ some v =
        subst (λ b. (if b then some w else find_name n vs) ≡ some v) same h in
      let is_v : w ≡ v = cc in ap (λ x. x.name) (sym is_v) ∙ (eq_iff w.name n).0 same
  | inr other ↦
      find_name-name n vs v (subst (λ b. (if b then some w else find_name n vs) ≡ some v) other h)
]

find_name-append :
    (n : String) (vs ws : List Variable)
    → find_name n (vs ++ ws) ≡ first_of (find_name n vs) (find_name n ws)
find_name-append n [] ws = refl
find_name-append n (v ∷ vs) ws = elim (Bool-cases (str_eq v.name n)) [
  | inl same ↦ rw same refl
  | inr other ↦ rw other (find_name-append n vs ws)
]

has_name_of_none : (n : String) (vs : List Variable) → find_name n vs ≡ none → has_name n vs ≡ false
has_name_of_none n [] h = refl
has_name_of_none n (v ∷ vs) h = elim (Bool-cases (str_eq v.name n)) [
  | inl same ↦ cc (subst (λ b. (if b then some v else find_name n vs) ≡ none) same h)
  | inr other ↦
      rw other
        (has_name_of_none n vs (subst (λ b. (if b then some v else find_name n vs) ≡ none) other h))
]

-- What the additions that are new to `vs` say of a name that is new to `vs`.
find_name-new :
    (n : String) (vs ws : List Variable)
    → has_name n vs ≡ false
    → find_name n (filter_by (λ w. not (has_name w.name vs)) ws) ≡ find_name n ws
find_name-new n vs [] h = refl
find_name-new n vs (w ∷ ws) h = elim (Bool-cases (str_eq w.name n)) [
  | inl same ↦
      let new : has_name w.name vs ≡ false =
        ap (λ m. has_name m vs) ((eq_iff w.name n).0 same) ∙ h in
      rw new (rw same refl)
  | inr other ↦ elim (Bool-cases (has_name w.name vs)) [
    | inl old ↦ rw old (rw other (find_name-new n vs ws h))
    | inr new ↦ rw new (rw other (find_name-new n vs ws h))
  ]
]

lookup-spread :
    (n : String) (m : List (String × Variable)) (ws : List Variable)
    → HasDistinctNames ws
    → lookup n (spread m (map (λ v. (v.name, v)) ws)) ≡ first_of (find_name n ws) (lookup n m)
unfolding spread
lookup-spread n m [] d = refl
lookup-spread n m (w ∷ ws) (fresh, d) = elim (Bool-cases (str_eq w.name n)) [
  | inl same ↦
      let gone : find_name n ws ≡ none =
        ap (λ k. find_name k ws) (sym ((eq_iff w.name n).0 same)) ∙ fresh in
      lookup-spread n (insert w.name w m) ws d
      ∙ ap (λ o. first_of o (lookup n (insert w.name w m))) gone
      ∙ lookup-insert w.name n w m
      ∙ (rw same refl)
  | inr other ↦
      lookup-spread n (insert w.name w m) ws d
      ∙ ap (first_of (find_name n ws)) (lookup-insert w.name n w m)
      ∙ (rw other refl)
]

first_of-none : (o : Option Variable) → first_of o none ≡ o
first_of-none none = refl
first_of-none (some v) = refl

some-or_else : (o : Option Variable) (v : Variable) → some (or_else o v) ≡ first_of o (some v)
some-or_else none v = refl
some-or_else (some w) v = refl

-- An addition for what is there already.
abbrev kept_or : Option Variable → Option Variable → Option Variable
kept_or addition none = none
kept_or addition (some v) = first_of addition (some v)

first_kept :
    (o : Option Variable) (v : Variable) (more : Option Variable)
    → first_of (first_of o (some v)) more ≡ first_of o (some v)
first_kept none v more = refl
first_kept (some w) v more = refl

module _ (additions : List Variable) (distinct : HasDistinctNames additions) where
  abbrev updated : Variable → Variable
  updated v = or_else (lookup v.name (variable_map additions)) v

  map_lookup : (n : String) → lookup n (variable_map additions) ≡ find_name n additions
  map_lookup n =
      lookup-spread n [] additions distinct
      ∙ (unfold lookup in first_of-none (find_name n additions))

  name-updated : (v : Variable) → (updated v).name ≡ v.name
  name-updated v = elim (Option-cases (find_name v.name additions)) [
    | inl nothing ↦ ap (λ o. (or_else o v).name) (map_lookup v.name ∙ nothing)
    | inr (w, found) ↦
        ap (λ o. (or_else o v).name) (map_lookup v.name ∙ found)
        ∙ find_name-name v.name additions w found
  ]

  updated_as : (v : Variable) → some (updated v) ≡ first_of (find_name v.name additions) (some v)
  updated_as v =
      ap (λ o. some (or_else o v)) (map_lookup v.name) ∙ some-or_else (find_name v.name additions) v

  find_name-updated :
      (n : String) (vs : List Variable)
      → find_name n (map updated vs) ≡ kept_or (find_name n additions) (find_name n vs)
  find_name-updated n [] = refl
  find_name-updated n (v ∷ vs) = elim (Bool-cases (str_eq v.name n)) [
    | inl same ↦
        let named : str_eq (updated v).name n ≡ true =
          ap (λ k. str_eq k n) (name-updated v) ∙ same in
        rw named (
          rw same (
            updated_as v
            ∙ ap (λ k. first_of (find_name k additions) (some v)) ((eq_iff v.name n).0 same)))
    | inr other ↦
        let named : str_eq (updated v).name n ≡ false =
          ap (λ k. str_eq k n) (name-updated v) ∙ other in
        rw named (rw other (find_name-updated n vs))
  ]

  -- Where the additions have distinct names, a name stands for the addition of that name after they
  -- have been upserted, and for the variable that it stood for before where there is none.
  pub find_name-upsert_variables :
      (existing : List Variable) (n : String)
      → find_name n (upsert_variables existing additions)
        ≡ first_of (find_name n additions) (find_name n existing)
  unfolding upsert_variables
  find_name-upsert_variables existing n =
      find_name-append n (map updated existing)
        (filter_by (λ w. not (has_name w.name existing)) additions)
      ∙ ap
          (λ o.
            first_of o (find_name n (filter_by (λ w. not (has_name w.name existing)) additions)))
          (find_name-updated n existing)
      ∙ elim (Option-cases (find_name n existing)) [
        | inl nothing ↦ rw nothing (
            find_name-new n existing additions (has_name_of_none n existing nothing)
            ∙ sym (first_of-none (find_name n additions)))
        | inr (v, found) ↦ rw found (first_kept (find_name n additions) v _)
      ]
