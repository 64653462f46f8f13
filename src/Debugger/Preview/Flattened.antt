-- ===== src/Debugger/Preview/Flattened.antt =====
-- Which variable the preview reads.
use ocs_testbench.Common.{
  ◌≡◌, refl, ap, ◌∙◌, subst, inl, inr, String, Bool, true, false, ◌||◌, List, [], ◌∷◌, Option, none,
  some, str_eq, eq_iff, if◌then◌else◌, Bool-cases,
}
use ocs_testbench.Common.Objects.{lookup, insert, spread, lookup-insert, has_key}
use ocs_testbench.Scenario.{VarValue}
use ocs_testbench.Execution.{ExecutionContextSnapshot}
use ocs_testbench.Debugger.Preview.{flatten_context, resolve_value, shown_value}

or_right : (a b : Bool) → (a || b) ≡ false → b ≡ false
or_right true b h = cc
or_right false b h = h

-- An object has a key once.
abbrev pub IsObject : List (String × VarValue) → Type 0
IsObject [] = Unit
IsObject ((key, value) ∷ rest) = (has_key key rest ≡ false) × IsObject rest

abbrev pub first_of : Option VarValue → Option VarValue → Option VarValue
first_of none other = other
first_of (some v) other = some v

first_of-none : (o : Option VarValue) → first_of o none ≡ o
first_of-none none = refl
first_of-none (some v) = refl

lookup-missing :
    (key : String) (n : List (String × VarValue)) → has_key key n ≡ false → lookup key n ≡ none
unfolding lookup has_key
lookup-missing key [] h = refl
lookup-missing key ((k, v) ∷ n) h = elim (Bool-cases (str_eq k key)) [
  | inl same ↦ cc
  | inr other ↦ rw other (lookup-missing key n (or_right _ _ h))
]

added :
    (key k : String) (v : VarValue) (rest n : List (String × VarValue))
    → has_key k n ≡ false
    → first_of (lookup key n) (lookup key (insert k v rest))
      ≡ first_of (if str_eq k key then some v else lookup key n) (lookup key rest)
added key k v rest n new = elim (Bool-cases (str_eq k key)) [
  | inl same ↦
      let absent : lookup key n ≡ none =
        lookup-missing key n (subst (λ u. has_key u n ≡ false) ((eq_iff k key).0 same) new) in
      rw (lookup-insert k key v rest, same, absent) refl
  | inr other ↦ rw (lookup-insert k key v rest, other) refl
]

lookup-spread :
    (key : String) (rest n : List (String × VarValue))
    → IsObject n
    → lookup key (spread rest n) ≡ first_of (lookup key n) (lookup key rest)
unfolding spread lookup
lookup-spread key rest [] h = refl
lookup-spread key rest ((k, v) ∷ n) (new, h) =
    lookup-spread key (insert k v rest) n h ∙ added key k v rest n new

-- A name of the preview is read from the user's variables, else from the system's, else from the
-- extracted ones, and shows as a placeholder if none of them has it.
pub resolve_value-flatten_context :
    (name : String) (snapshot : ExecutionContextSnapshot)
    → IsObject snapshot.extracted
    → IsObject snapshot.system
    → IsObject snapshot.user
    → resolve_value name (flatten_context snapshot)
      ≡ shown_value name (
          first_of
            (lookup name snapshot.user)
            (first_of (lookup name snapshot.system) (lookup name snapshot.extracted)))
unfolding resolve_value flatten_context lookup
resolve_value-flatten_context name snapshot he hs hu =
    rw
      (
        lookup-spread name (spread (spread [] snapshot.extracted) snapshot.system) snapshot.user hu,
        lookup-spread name (spread [] snapshot.extracted) snapshot.system hs,
        lookup-spread name [] snapshot.extracted he,
      )
      (ap
        (λ o.
          shown_value name
            (first_of (lookup name snapshot.user) (first_of (lookup name snapshot.system) o)))
        (first_of-none (lookup name snapshot.extracted)))
