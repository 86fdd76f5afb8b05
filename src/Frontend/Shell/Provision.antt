-- ===== src/Frontend/Shell/Provision.antt =====
-- frontend/src/components/ProvisionModal.tsx: the form, and what its submission sends to the rules of
-- proto/qlab/dev/v1/dev.proto. The counts are whole numbers: the browser refuses others for its inputs.
use Prim.Native.String.{[] as empty_text, ◌∷◌ as ◌∷ₜ◌}
use qlab.Base.{
  ◌≡◌, refl, inl, inr, ℕ, suc, Bool, true, false, not, ◌&&◌, Option, none, some, String, ℤ, pos,
  negsuc, str_eq, leb, ltb_ℤ, ◌≤◌, arith, Bool-cases, eq_iff, if◌then◌else◌,
}
use qlab.Frontend.Proto.{ProvisionLabRequest}
use qlab.Frontend.Text.{or_else, trim}
use qlab.Frontend.Workspace.{State, Call, provision, Request, provision_lab, begin, start_run}

pub record Modal : Type 0 where
  pub feature : String
  pub member_count : ℤ
  pub resource_count : ℤ

abbrev pub fresh_modal : Modal
fresh_modal = record { feature = "demo"; member_count = pos 3; resource_count = pos 2 }

pub data ModalEvent : Type 0 where
  types_feature : String → ModalEvent
  types_members types_resources : ℤ → ModalEvent

-- The inputs' `onChange`.
unfoldable pub modal_step : Modal → ModalEvent → Modal
modal_step m (types_feature s) = record m { feature = s }
modal_step m (types_members n) = record m { member_count = n }
modal_step m (types_resources n) = record m { resource_count = n }

-- An input of a number, with its bounds.
pub record NumberInput : Type 0 where
  pub min : ℤ
  pub max : ℤ
  pub value : ℤ

pub record ModalView : Type 0 where
  pub feature : String
  pub placeholder : String
  pub members : NumberInput
  pub resources : NumberInput
  pub submit_disabled : Bool
  pub submit_label : String

unfoldable pub modal_view : Modal → State → ModalView
modal_view m st = record {
  feature = m.feature;
  placeholder = "demo";
  members = record { min = pos 0; max = pos 20; value = m.member_count };
  resources = record { min = pos 1; max = pos 20; value = m.resource_count };
  submit_disabled = st.busy;
  submit_label = if st.busy then "Provisioning…" else "Provision";
}

-- `onSubmit`, before it closes the modal.
unfoldable pub on_submit : Modal → Call
unfolding trim
on_submit m = provision (or_else (trim m.feature) "demo") m.member_count m.resource_count

-- `a <= b`.
abbrev is_at_most : ℤ → ℤ → Bool
is_at_most a b = not (ltb_ℤ b a)

-- What the browser asks of the form before it calls `onSubmit`.
abbrev pub in_bounds : NumberInput → Bool
in_bounds i = is_at_most i.min i.value && is_at_most i.value i.max

abbrev pub submits : ModalView → Bool
submits v = not v.submit_disabled && (in_bounds v.members && in_bounds v.resources)

-- A press of the button: the workspace's state after it with the request that is sent.
unfoldable pub submit : Modal → State → Option (State × Option Request)
unfolding modal_view on_submit begin
submit m st = if submits (modal_view m st) then some (begin (on_submit m) st) else none

-- The number of a text's characters.
unfoldable pub text_length : String → ℕ
text_length empty_text = 0
text_length (◌∷ₜ◌ c s) = suc (text_length s)

-- The rules on a `ProvisionLabRequest`.
unfoldable pub valid_provision : ProvisionLabRequest → Bool
unfolding text_length
valid_provision req =
    (leb 1 (text_length req.feature) && leb (text_length req.feature) 100)
    && (is_at_most (pos 0) req.member_count && is_at_most req.member_count (pos 50))
    && (is_at_most (pos 1) req.resource_count && is_at_most req.resource_count (pos 20))

filled : (s : String) → str_eq s "" ≡ false → leb 1 (text_length s) ≡ true
unfolding text_length
filled empty_text e = absurd (ground arith)
filled (◌∷ₜ◌ c s) e = ground arith

feature_valid :
    (s : String)
    → (leb 1 (text_length (or_else s "demo")) && leb (text_length (or_else s "demo")) 100)
      ≡ leb (text_length s) 100
unfolding text_length
feature_valid s = elim (Bool-cases (str_eq s "")) [
  | inl c ↦ rw c (rw ((eq_iff s "").0 c) refl)
  | inr c ↦ rw c (rw (filled s c) refl)
]

within :
    (lo n : ℤ) (hi top : ℕ)
    → hi ≤ top
    → (is_at_most lo n && is_at_most n (pos hi)) ≡ true
    → (is_at_most lo n && is_at_most n (pos top)) ≡ true
within lo (pos n) hi top h e = ground arith
within lo (negsuc n) hi top h e = ground arith

abbrev request_of : Modal → ProvisionLabRequest
request_of m = record {
  feature = or_else (trim m.feature) "demo";
  member_count = m.member_count;
  resource_count = m.resource_count;
}

request_valid :
    (m : Modal) (st : State)
    → submits (modal_view m st) ≡ true
    → valid_provision (request_of m) ≡ leb (text_length (trim m.feature)) 100
unfolding valid_provision modal_view
request_valid m st h = rw (feature_valid (trim m.feature)) (
    rw
      (
        within (pos 0) m.member_count 20 50 (omega arith) (ground arith),
        within (pos 1) m.resource_count 20 20 (omega arith) (ground arith),
      )
      (ground arith))

-- A press of the button that is not dead sends one ProvisionLab request, from a state that is not
-- busy, and makes it busy. The request has the counts of the inputs, and meets the rules of the proto
-- exactly if the feature's text, with its ends trimmed, has at most 100 characters.
pub submit-valid :
    (m : Modal) (st after : State) (sent : Option Request)
    → submit m st ≡ some (after, sent)
    → (st.busy ≡ false)
      × (after.busy ≡ true)
      × ((req : ProvisionLabRequest) × (sent ≡ some (provision_lab req))
          × (req.member_count ≡ m.member_count)
          × (req.resource_count ≡ m.resource_count)
          × (valid_provision req ≡ leb (text_length (trim m.feature)) 100))
unfolding submit modal_view on_submit begin start_run
submit-valid m st after sent h = elim (Bool-cases (submits (modal_view m st))) [
  | inl c ↦
      let e : (after, sent) ≡ begin (on_submit m) st = ground arith in
      (ground arith, ground arith, (request_of m, ground arith, refl, refl, request_valid m st c))
  | inr c ↦ absurd (ground arith)
]
