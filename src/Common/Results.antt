-- ===== src/Common/Results.antt =====
-- `ApiException` as a value: the error codes that the modelled services throw, without their HTTP
-- status and message, and the `Result` that carries one. `e ← m` stands for an awaited call.
use repair_flow.Common.Tests.{if◌then◌else◌}
use mathlib.Core.Bool.{Bool, true, false}
use mathlib.Core.Option.{Option, none, some}
use mathlib.Core.Path.{◌≡◌, refl}

pub data ErrorCode : Type 0 where
  resource_not_found concurrent_update invalid_transition permission_denied : ErrorCode
  completion_outcome_required validation_failed guard_failed : ErrorCode
  intake_photos_required technician_not_assigned : ErrorCode
  payment_not_allowed approved_scope_required payment_exceeds_balance money_out_of_range : ErrorCode
  handover_already_completed warranty_required payment_disposition_invalid : ErrorCode
  storage_unavailable media_upload_incomplete : ErrorCode
  invalid_link link_expired quote_unavailable approval_group_invalid : ErrorCode
  idempotency_key_reused : ErrorCode
  approved_item_required part_requirement_invalid_transition : ErrorCode
  work_log_correction_invalid part_quantity_exceeded quote_already_decided : ErrorCode
  quote_scope_lineage_invalid quote_items_required : ErrorCode
  quote_not_draft quote_destination_required : ErrorCode
  qc_template_inactive qc_results_incomplete qc_failure_note_required internal_error : ErrorCode

pub data Result {ℓ} (T : Type ℓ) : Type ℓ where
  err : ErrorCode → Result T
  ok : T → Result T

-- A check that throws or passes.
abbrev pub Check : Type 0
Check = Result (Unit {0})

-- `if (!test) throw code`
abbrev pub guard : Bool → ErrorCode → Check
guard test code = if test then ok tt else err code

-- `if (!value) throw code`
abbrev pub require {ℓ} : {T : Type ℓ} → Option T → ErrorCode → Result T
require (some value) code = ok value
require none code = err code

-- An exception leaves the rest of the function out.
infixl 5 ◌>>=◌ ◌>>◌
abbrev pub ◌>>=◌ {ℓ κ} : {S : Type ℓ} {T : Type κ} → Result S → (S → Result T) → Result T
◌>>=◌ (err code) rest = err code
◌>>=◌ (ok value) rest = rest value

abbrev pub ◌>>◌ {ℓ} : {T : Type ℓ} → Check → Result T → Result T
◌>>◌ (err code) rest = err code
◌>>◌ (ok _) rest = rest

-- A chain that passes went through its first part.
pub ok_of_bind {ℓ κ} :
    {S : Type ℓ} {T : Type κ} (first : Result S) (rest : S → Result T) {t : T}
    → (first >>= rest) ≡ ok t
    → (s : S) × (first ≡ ok s) × (rest s ≡ ok t)
ok_of_bind (err code) rest passed = cc
ok_of_bind (ok s) rest passed = (s, refl, passed)

pub ok_of_then {ℓ} :
    {T : Type ℓ} (check : Check) (rest : Result T) {t : T}
    → (check >> rest) ≡ ok t
    → (check ≡ ok tt) × (rest ≡ ok t)
ok_of_then (err code) rest passed = cc
ok_of_then (ok _) rest passed = (refl, passed)

pub guard-eq-ok :
    (test : Bool) (code : ErrorCode) {u : Unit {0}} → guard test code ≡ ok u → test ≡ true
guard-eq-ok true code passed = refl
guard-eq-ok false code passed = cc

pub require-eq-ok {ℓ} :
    {T : Type ℓ} (value : Option T) (code : ErrorCode) {t : T}
    → require value code ≡ ok t
    → value ≡ some t
require-eq-ok none code passed = cc
require-eq-ok (some x) code passed = cc

pub ok-eq-ok {ℓ} : {T : Type ℓ} {s t : T} → ◌≡◌ {A = Result T} (ok s) (ok t) → s ≡ t
ok-eq-ok h = cc

-- What a function that returns a pair has returned.
pub ok_parts {ℓ κ} :
    {S : Type ℓ} {T : Type κ} {s s' : S} {t t' : T}
    → ◌≡◌ {A = Result (S × T)} (ok (s, t)) (ok (s', t'))
    → (s ≡ s') × (t ≡ t')
ok_parts h = (cc, cc)
