-- ===== src/Peers/Refused.antt =====
-- PeerForm.tsx and web/src/api/errors.ts: what the form does with the server's answer to its body.
use Prim.Native.Char.{code}
use ocs_testbench.Common.{
  ℕ, ◌≡◌, ◌⊎◌, refl, ap, subst, ◌||◌, inl, inr, String, Bool, true, false, List, [], ◌∷◌, any, All,
  ltb, str_eq, ◌==◌, if◌then◌else◌, Bool-cases,
}
use ocs_testbench.Common.Objects.{insert}
use ocs_testbench.FakeApi.Checks.{FieldErrors, report_if}
use ocs_testbench.Peers.{
  Peer, PeerInput, NumberField, is_empty, if_valid, if_free, named, handle, create_peer, whole,
  fraction, blank, number_error, name_error, validate, PeerReply, validation_problem, not_found,
}

-- `key.startsWith('/') ? key.slice(1) : key`
unfoldable pub field_name : String → String
field_name String.[] = String.[]
field_name (String.◌∷◌ c s) = if code c == 47 then s else String.◌∷◌ c s

-- The loop of `ApiError.fieldErrors`. The server gives one message for a field.
unfoldable pub fields_from : FieldErrors → FieldErrors → FieldErrors
unfolding insert field_name
fields_from out [] = out
fields_from out ((key, message) ∷ errors) = fields_from (insert (field_name key) message out) errors

unfoldable pub field_errors : FieldErrors → FieldErrors
unfolding fields_from
field_errors errors = fields_from [] errors

pub data Submission : Type 0 where
  accepted : Submission
  shown : FieldErrors → Submission
  rethrown : Submission

abbrev pub shown_or_thrown : FieldErrors → Submission
shown_or_thrown [] = rethrown
shown_or_thrown (e ∷ es) = shown (e ∷ es)

-- The rest of `handleSubmit`, for each answer.
unfoldable pub submission : PeerReply → Submission
unfolding field_errors
submission (validation_problem errors) = shown_or_thrown (field_errors errors)
submission (not_found id) = rethrown
submission reply = accepted

-- The fields of the form that have a rule or are named by the server's.
abbrev pub form_fields : List String
form_fields =
    "name" ∷ "host" ∷ "port" ∷ "originHost" ∷ "originRealm" ∷ "transport"
    ∷ "watchdogIntervalSeconds" ∷ []

abbrev pub is_field : String → Bool
is_field name = any (str_eq name) form_fields

-- The keys of the errors are those of fields.
AreKeys : FieldErrors → Type 0
AreKeys errors = All (λ e. is_field (field_name e.0) ≡ true) errors

AreKeys-insert :
    (key message : String) (errors : FieldErrors)
    → is_field (field_name key) ≡ true
    → AreKeys errors
    → AreKeys (insert key message errors)
unfolding insert AreKeys
AreKeys-insert key message [] k h = (k, tt)
AreKeys-insert key message ((other, held) ∷ errors) k (o, h) =
    elim (Bool-cases (str_eq other key)) [
      | inl t ↦ rw t (o, h)
      | inr t ↦ rw t (o, AreKeys-insert key message errors k h)
    ]

AreKeys-report_if :
    (b : Bool) (key message : String) (errors : FieldErrors)
    → is_field (field_name key) ≡ true
    → AreKeys errors
    → AreKeys (report_if b key message errors)
AreKeys-report_if true key message errors k h = AreKeys-insert key message errors k h
AreKeys-report_if false key message errors k h = h

-- The errors stand at fields of the form.
abbrev pub AreFields : FieldErrors → Type 0
AreFields errors = All (λ e. is_field e.0 ≡ true) errors

AreFields-insert :
    (name message : String) (errors : FieldErrors)
    → is_field name ≡ true
    → AreFields errors
    → AreFields (insert name message errors)
unfolding insert
AreFields-insert name message [] k h = (k, tt)
AreFields-insert name message ((other, held) ∷ errors) k (o, h) =
    elim (Bool-cases (str_eq other name)) [
      | inl t ↦ rw t (o, h)
      | inr t ↦ rw t (o, AreFields-insert name message errors k h)
    ]

fields_from-AreFields :
    (errors out : FieldErrors) → AreKeys errors → AreFields out → AreFields (fields_from out errors)
unfolding fields_from AreKeys
fields_from-AreFields [] out k h = h
fields_from-AreFields ((key, message) ∷ errors) out (k, ks) h =
    fields_from-AreFields errors (insert (field_name key) message out) ks
      (AreFields-insert (field_name key) message out k h)

-- What a refusal shows: at least one error, and each at a field.
abbrev pub IsShown : Submission → Type 0
IsShown s = (e : String × String) × (es : FieldErrors) × (s ≡ shown (e ∷ es)) × AreFields (e ∷ es)

insert_some :
    (key message : String) (errors : FieldErrors)
    → (e : String × String) × (es : FieldErrors) × (insert key message errors ≡ e ∷ es)
unfolding insert
insert_some key message [] = ((key, message), [], refl)
insert_some key message ((other, held) ∷ errors) = elim (Bool-cases (str_eq other key)) [
  | inl t ↦ rw t ((other, message), errors, refl)
  | inr t ↦ rw t ((other, held), insert key message errors, refl)
]

fields_from_some :
    (errors : FieldErrors) (e : String × String) (es : FieldErrors)
    → (f : String × String) × (fs : FieldErrors) × (fields_from (e ∷ es) errors ≡ f ∷ fs)
unfolding fields_from
fields_from_some [] e es = (e, es, refl)
fields_from_some ((key, message) ∷ errors) e es =
    let (f, fs, inserted) = insert_some (field_name key) message (e ∷ es) in
    rw inserted (fields_from_some errors f fs)

refused-IsShown :
    (e : String × String) (es : FieldErrors)
    → AreKeys (e ∷ es)
    → IsShown (submission (validation_problem (e ∷ es)))
unfolding submission fields_from AreKeys
refused-IsShown e es (k, ks) =
    let out = insert (field_name e.0) e.1 [] in
    let (f, fs, eq) = fields_from_some es (field_name e.0, e.1) [] in
    let fields = fields_from-AreFields es ((field_name e.0, e.1) ∷ []) ks (k, tt) in
    (f, fs, ap shown_or_thrown eq, subst AreFields eq fields)

number_error-AreKeys :
    (lo hi : ℕ) (key required range : String) (v : NumberField) (errors : FieldErrors)
    → is_field (field_name key) ≡ true
    → AreKeys errors
    → AreKeys (number_error lo hi key required range v errors)
number_error-AreKeys lo hi key required range (whole n) errors k h =
    AreKeys-report_if (ltb n lo || ltb hi n) key range errors k h
number_error-AreKeys lo hi key required range (fraction n) errors k h =
    AreKeys-insert key required errors k h
number_error-AreKeys lo hi key required range blank errors k h =
    AreKeys-insert key required errors k h

if-AreKeys :
    (b : Bool) (xs ys : FieldErrors) → AreKeys xs → AreKeys ys → AreKeys (if b then xs else ys)
if-AreKeys true xs ys h k = h
if-AreKeys false xs ys h k = k

-- The form takes the answer as a success, or the server's peers are as before and it shows why.
abbrev pub IsAnswered : List Peer → List Peer × PeerReply → Type 0
IsAnswered ps r = (submission r.1 ≡ accepted) ⊎ ((r.0 ≡ ps) × IsShown (submission r.1))

checked-IsAnswered :
    (errors : FieldErrors) (taken : Bool) (name : String) (ps : List Peer)
    (next : List Peer × PeerReply)
    → AreKeys errors
    → submission next.1 ≡ accepted
    → IsAnswered ps (if_valid errors ps (if_free taken name ps next))
unfolding field_name AreKeys
checked-IsAnswered (e ∷ es) taken name ps next k a = inr (refl, refused-IsShown e es k)
checked-IsAnswered [] true name ps next k a = inr (refl, refused-IsShown _ [] (refl, tt))
checked-IsAnswered [] false name ps next k a = inl a

module _ (trim : String → String) (lower : String → String) (text_length : String → ℕ) where
  name_error-AreKeys : (name : String) → AreKeys (name_error trim lower text_length name [])
  unfolding field_name AreKeys
  name_error-AreKeys name = if-AreKeys (is_empty name) _ _ (AreKeys-insert "/name" _ [] refl tt) (
      if-AreKeys (ltb 64 (text_length name)) _ _ (AreKeys-insert "/name" _ [] refl tt)
        (AreKeys-report_if _ "/name" _ [] refl tt))

  validate-AreKeys : (i : PeerInput) → AreKeys (validate trim lower text_length i)
  unfolding validate field_name
  validate-AreKeys i =
      number_error-AreKeys 5 3600 "/watchdogIntervalSeconds" _ _ i.watchdog_interval_seconds _ refl
        (AreKeys-report_if _ "/transport" _ _ refl (
          AreKeys-report_if _ "/originRealm" _ _ refl (
            AreKeys-report_if _ "/originHost" _ _ refl (
              number_error-AreKeys 1 65535 "/port" _ _ i.port _ refl
                (AreKeys-report_if _ "/host" _ _ refl (name_error-AreKeys (trim i.name)))))))

  -- A body for a new peer is either created or, with the server's peers as before, refused with at least
  -- one error, each of which the form shows at one of its fields: no refusal is thrown on.
  pub create-IsAnswered :
      (now : ℕ) (input : PeerInput) (ps : List Peer)
      → IsAnswered ps (handle trim lower text_length now (create_peer input) ps)
  unfolding handle submission
  create-IsAnswered now input ps =
      checked-IsAnswered (validate trim lower text_length input) (any (named input.name) ps)
        input.name ps _ (validate-AreKeys input) refl
