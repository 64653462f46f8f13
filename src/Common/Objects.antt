-- ===== src/Common/Objects.antt =====
-- A JavaScript object used as a dictionary: its own keys in insertion order. Assigning to a key
-- that is there keeps its place.
use Prim.Native.String.{String}
use mathlib.Core.Path.{◌≡◌, refl}
use mathlib.Core.Bool.{Bool, false, ◌||◌}
use mathlib.Core.List.{List, [], ◌∷◌}
use mathlib.Core.Option.{Option, none, some}
use native.Mathlib.Omega.{arith}
use text.Mathlib.Text.{◌==◌ as str_eq}
use text.Mathlib.TextEquality.{eq_iff}
use ocs_testbench.Common.Tests.{if◌then◌else◌}

module _ {ℓ} {Value : Type ℓ} where
  unfoldable pub lookup : String → List (String × Value) → Option Value
  lookup key [] = none
  lookup key ((other, value) ∷ rest) = if str_eq other key then some value else lookup key rest

  -- `rest[key] = value`
  unfoldable pub insert : String → Value → List (String × Value) → List (String × Value)
  insert key value [] = (key, value) ∷ []
  insert key value ((other, held) ∷ rest) =
      if str_eq other key then (other, value) ∷ rest else (other, held) ∷ insert key value rest

  -- `{ ...rest, ...n }`
  unfoldable pub spread : List (String × Value) → List (String × Value) → List (String × Value)
  spread rest [] = rest
  spread rest ((key, value) ∷ n) = spread (insert key value rest) n

  pub lookup-insert :
      (key other : String) (value : Value) (rest : List (String × Value))
      → lookup other (insert key value rest)
        ≡ (if str_eq key other then some value else lookup other rest)
  unfolding lookup insert
  lookup-insert key other value [] = refl
  lookup-insert key other value ((name, held) ∷ rest) = ground (
    arith,
    eq_iff key other,
    eq_iff name key,
    eq_iff name other,
    lookup-insert key other value rest,
  )

  -- `Object.prototype.hasOwnProperty`
  unfoldable pub has_key : String → List (String × Value) → Bool
  has_key key [] = false
  has_key key ((other, value) ∷ rest) = str_eq other key || has_key key rest

  pub has_key-insert :
      (key other : String) (value : Value) (rest : List (String × Value))
      → has_key other (insert key value rest) ≡ (str_eq key other || has_key other rest)
  unfolding has_key insert
  has_key-insert key other value [] = refl
  has_key-insert key other value ((name, held) ∷ rest) = ground (
    arith,
    eq_iff key other,
    eq_iff name key,
    eq_iff name other,
    has_key-insert key other value rest,
  )
