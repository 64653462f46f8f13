-- ===== src/Debugger/Labels.antt =====
-- lastResponseLogic.ts and progressPaneLogic.ts: the labels of the response pane and of the rows.
-- The two functions on sizes are left out: they need the platform's encoding and rounding.
use ocs_testbench.Common.{
  ℕ, String, ◌&&◌, List, [], Option, none, some, ltb, leb, ◌==◌, if◌then◌else◌,
}
use ocs_testbench.Common.Objects.{lookup}
use ocs_testbench.Common.Text.{◌⧺◌, number_text}
use ocs_testbench.Scenario.{StepKind, request, consume, wait, pause}

-- A field of a wire-level response; the values that are neither numbers nor objects are left open.
pub data WireValue {ℓ} (V : Type ℓ) : Type ℓ where
  number : ℕ → WireValue V
  object : List (String × V) → WireValue V
  other : V → WireValue V

abbrev code_color : ℕ → String
code_color code =
    if leb 2000 code && ltb code 3000
    then "teal"
    else if leb 4000 code && ltb code 5000
    then "yellow"
    else if leb 5000 code && ltb code 6000
    then "red"
    else "gray"

unfoldable pub result_code_color : Option ℕ → String
result_code_color none = "gray"
result_code_color (some code) = code_color code

abbrev code_label : ℕ → String
code_label code =
    if (code == 2001)
    then "2001 SUCCESS"
    else if (code == 4010)
    then "4010 END_USER_SERVICE_DENIED"
    else if (code == 4011)
    then "4011 CREDIT_CONTROL_NOT_APPLICABLE"
    else if (code == 4012)
    then "4012 CREDIT_LIMIT_REACHED"
    else if (code == 5012)
    then "5012 UNABLE_TO_COMPLY"
    else if (code == 5030)
    then "5030 USER_UNKNOWN"
    else number_text code

unfoldable pub result_code_label : Option ℕ → String
result_code_label none = "—"
result_code_label (some code) = code_label code

module _ {ℓ} {V : Type ℓ} where
  -- The first of the candidates that is a number.
  abbrev first_number : Option (WireValue V) → Option ℕ → Option ℕ
  first_number (some (number n)) rest = some n
  first_number o rest = rest

  unfoldable pub extract_result_code : Option (List (String × WireValue V)) → Option ℕ
  unfolding lookup
  extract_result_code none = none
  extract_result_code (some response) =
      first_number (lookup "resultCode" response)
        (first_number (lookup "Result-Code" response) none)

  abbrev object_of : Option (WireValue V) → List (String × V)
  object_of (some (object fields)) = fields
  object_of o = []

  unfoldable pub extract_extractions : Option (List (String × WireValue V)) → List (String × V)
  unfolding lookup
  extract_extractions none = []
  extract_extractions (some response) = object_of (lookup "extractions" response)

abbrev rtt_of : ℕ → String
rtt_of ms = if ltb ms 1 then "<1 ms" else number_text ms ⧺ " ms"

unfoldable pub format_rtt : Option ℕ → String
format_rtt none = "—"
format_rtt (some ms) = rtt_of ms

unfoldable pub kind_label : StepKind → String
kind_label request = "Request"
kind_label consume = "Consume"
kind_label wait = "Wait"
kind_label pause = "Pause"

unfoldable pub kind_color : StepKind → String
kind_color request = "blue"
kind_color consume = "grape"
kind_color wait = "gray"
kind_color pause = "yellow"
