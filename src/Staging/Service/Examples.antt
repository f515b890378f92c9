-- ===== src/Staging/Service/Examples.antt =====
-- Tests of the model of src/lumina/staging/staging_service.py, and its theorems at concrete areas.
use lumina_framework.Base.{ℕ, String, true, false, none, some, [], ◌∷◌, ok, err, ◌≡◌, refl}
use lumina_framework.Base.Dict.{Dict, get, put, merge}
use lumina_framework.Core.StateMachine.{
  validated, StateTransaction, advance, can_advance, legal_transitions, same_state, state_in, value,
}
use lumina_framework.Staging.Templates.{
  os_error, write_from_template, require, check_fields, missing,
}
use lumina_framework.Staging.Service.{
  Area, StagedFile, Stamps, already_resolved, template, stage_file, new_envelope, new_transaction,
  save, persist_envelope, advance_if, get_staged, approve_staged, reject_staged, commit, finish,
  close_approval, note_unsaved, after_write, after_commit, load_and_check, check_pending,
}
use lumina_framework.Staging.Service.Approval.{IsPending, IsApproval, approve_written}
use lumina_framework.Staging.Service.Areas.{IsReached, IsArea, reached-IsArea}
use lumina_framework.Staging.Service.Once.{approve_once}

abbrev stamps : Stamps
stamps = record {
  first = 1;
  second = 2;
  third = 3;
  iso = "2026-01-01";
  record_id = "r1";
  is_saved = true;
}

abbrev payload : Dict ℕ
payload = ("hint_id", 1) ∷ ("domain_id", 2) ∷ ("content", 3) ∷ []

abbrev empty_area : Area ℕ
empty_area = record { envelopes = []; written = []; unsaved = [] }

abbrev area : Area ℕ
area =
    (stage_file stamps "f1" "stage_file:context-hint" payload "context-hint" "ann" "user"
      empty_area).0

abbrev area_reached : IsReached area
unfolding get_staged get
area_reached =
    IsReached.stage stamps "f1" "stage_file:context-hint" "context-hint" "ann" "user" payload
      IsReached.empty refl

abbrev approved_area : Area ℕ
approved_area = (approve_staged stamps (ok "hints/1.json") "f1" "bob" area).0

approve_test :
    ((approve_staged stamps (ok "hints/1.json") "f1" "bob" area).1 ≡ ok "hints/1.json")
    × (approved_area.written ≡ "f1" ∷ [])
unfolding approve_staged after_commit commit load_and_check check_pending get_staged get stage_file
    save new_envelope require check_fields advance_if advance new_transaction after_write
    write_from_template close_approval note_unsaved merge put can_advance legal_transitions
    same_state state_in value finish persist_envelope missing
approve_test = (refl, refl)

-- The staged envelope.
abbrev transaction : StateTransaction String
transaction = record {
  transaction_id = "f1";
  operation = "stage_file:context-hint";
  state = validated;
  actor_id = "ann";
  created_at = 1;
  updated_at = 3;
  metadata = ("template_id", "context-hint") ∷ [];
  history = record { state = "VALIDATED"; actor_id = "ann"; timestamp = 3 } ∷ [];
}

abbrev envelope : StagedFile ℕ
envelope = record {
  staged_id = "f1";
  template_id = "context-hint";
  actor_id = "ann";
  actor_role = "user";
  payload = payload;
  staged_at = "2026-01-01";
  approval_status = "pending";
  approver_id = none;
  resolved_at = none;
  final_path = none;
  log_record_id = some "r1";
  transaction = some transaction;
}

envelope-IsPending : IsPending envelope
envelope-IsPending = record { status = refl; transaction = transaction; has = refl; state = refl }

staged_found : get_staged "f1" area ≡ some envelope
unfolding stage_file save new_envelope require check_fields advance_if advance new_transaction merge
    put can_advance legal_transitions same_state state_in value persist_envelope missing get
    get_staged
staged_found = refl

staged_written :
    write_from_template (ok "hints/1.json") envelope.template_id envelope.payload
    ≡ ok "hints/1.json"
unfolding write_from_template require check_fields missing get
staged_written = refl

staged_unwritten :
    write_from_template (err os_error) envelope.template_id envelope.payload ≡ err os_error
unfolding write_from_template require check_fields missing get
staged_unwritten = refl

review_returned :
    approve_staged stamps (ok "hints/1.json") "f1" "bob" area ≡ (approved_area, ok "hints/1.json")
unfolding approve_staged after_commit commit load_and_check check_pending get_staged get stage_file
    save new_envelope require check_fields advance_if advance new_transaction after_write
    write_from_template close_approval note_unsaved merge put can_advance legal_transitions
    same_state state_in value finish persist_envelope missing
review_returned = refl

approve_written_example :
    (e' : StagedFile ℕ) × (approve_staged stamps (ok "hints/1.json") "f1" "bob" area ≡ (
      record {
        envelopes = put "f1" e' area.envelopes;
        written = "f1" ∷ area.written;
        unsaved = area.unsaved;
      },
      ok "hints/1.json",
    ))
    × IsApproval stamps "bob" "hints/1.json" envelope e'
approve_written_example =
    approve_written stamps (ok "hints/1.json") "f1" "bob" "hints/1.json" area envelope staged_found
      envelope-IsPending staged_written refl

-- The save of the first approval fails; the second one writes the payload again.
abbrev failing : Stamps
failing = record stamps { is_saved = false }

abbrev twice_written : Area ℕ
twice_written =
    (approve_staged stamps (ok "hints/1.json") "f1" "bob"
      (approve_staged failing (ok "hints/1.json") "f1" "bob" area).0).0

twice_test : (twice_written.written ≡ "f1" ∷ "f1" ∷ []) × (twice_written.unsaved ≡ "f1" ∷ [])
unfolding approve_staged after_commit commit load_and_check check_pending get_staged get stage_file
    save new_envelope require check_fields advance_if advance new_transaction after_write
    write_from_template close_approval note_unsaved merge put can_advance legal_transitions
    same_state state_in value finish persist_envelope missing
twice_test = (refl, refl)

reached-IsArea_example : IsArea twice_written
reached-IsArea_example = reached-IsArea (
    IsReached.approve stamps (ok "hints/1.json") "f1" "bob"
      (IsReached.approve failing (ok "hints/1.json") "f1" "bob" area_reached))

review_raised :
    approve_staged stamps (err os_error) "f1" "bob" area
    ≡ ((approve_staged stamps (err os_error) "f1" "bob" area).0, err (template os_error))
unfolding approve_staged after_commit commit load_and_check check_pending get_staged get stage_file
    save new_envelope require check_fields advance_if advance new_transaction after_write
    write_from_template close_approval note_unsaved merge put can_advance legal_transitions
    same_state state_in value finish persist_envelope missing
review_raised = refl

approve_once_example :
    (approve_staged stamps (ok "other") "f1" "eve" approved_area
      ≡ (approved_area, err (already_resolved "f1" "approved")))
    × (reject_staged stamps "f1" "eve" approved_area
        ≡ (approved_area, err (already_resolved "f1" "approved")))
approve_once_example =
    approve_once stamps stamps (ok "hints/1.json") (ok "other") "f1" "bob" "eve" area_reached
      review_returned
