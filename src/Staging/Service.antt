-- ===== src/Staging/Service.antt =====
-- src/lumina/staging/staging_service.py: the stage, approve and reject operations.
-- The staging directory is the dictionary of its envelopes; an envelope is read back as it was
-- written. `written` lists the staged ids whose payload reached its final destination, the last
-- first, and `unsaved` those whose approval raised after that. Ids, clock readings, ISO times and
-- the outcomes of the file system are arguments. A save that fails leaves the envelope's file as it
-- was: one that is cut short is not modelled. Each operation runs alone; the target path's
-- placeholders are not modelled.
pub mod Approval
pub mod Areas
pub mod Once
pub mod Listing
mod Examples
use lumina_framework.Base.{
  ◌||◌, ℕ, String, Bool, true, false, Option, none, some, List, [], ◌∷◌, Result, ok, err, ◌>>=◌,
  str_eq, if◌then◌else◌,
}
use lumina_framework.Base.Dict.{Dict, get, put}
use lumina_framework.Base.Order.{text_leb}
use lumina_framework.Base.Sorting.{sort}
use lumina_framework.Core.StateMachine
use lumina_framework.Core.StateMachine.{
  TransactionState, proposed, validated, committed, finalized, rolled_back, StateTransaction,
  advance,
}
use lumina_framework.Staging.Templates
use lumina_framework.Staging.Templates.{Template, check_fields, write_from_template}

-- The metadata of a staging transaction are texts.
abbrev pub Transaction : Type 0
Transaction = StateTransaction String

pub record StagedFile (J : Type 0) : Type 0 where
  pub staged_id : String
  pub template_id : String
  pub actor_id : String
  pub actor_role : String
  pub payload : Dict J
  pub staged_at : String
  pub approval_status : String
  pub approver_id : Option String
  pub resolved_at : Option String
  pub final_path : Option String
  pub log_record_id : Option String
  pub transaction : Option Transaction

pub record Area (J : Type 0) : Type 0 where
  pub envelopes : Dict (StagedFile J)
  pub written : List String
  pub unsaved : List String

pub data Error : Type 0 where
  not_found : String → Error
  already_resolved : String → String → Error
  template : Templates.Error → Error
  transition : StateMachine.Error → Error
  save_failed : Error

-- An exception of a callee passes through.
abbrev pub in_template {ℓ} : {A : Type ℓ} → Result Templates.Error A → Result Error A
in_template (ok a) = ok a
in_template (err e) = err (template e)

abbrev pub in_transition {ℓ} : {A : Type ℓ} → Result StateMachine.Error A → Result Error A
in_transition (ok a) = ok a
in_transition (err e) = err (transition e)

-- What the clock, the id generator, the log record and the save of the envelope give to one operation.
pub record Stamps : Type 0 where
  pub first : ℕ
  pub second : ℕ
  pub third : ℕ
  pub iso : String
  pub record_id : String
  pub is_saved : Bool

-- `transaction.advance(target, actor_id=…)`, where there is a transaction.
unfoldable pub advance_if :
    ℕ → Option Transaction → TransactionState → String → Result Error (Option Transaction)
advance_if now none target actor = ok none
advance_if now (some t) target actor = do
  t' ← in_transition (advance now t target (some actor) none)
  ok (some t')

unfoldable pub new_transaction : Stamps → String → String → String → String → Transaction
new_transaction s staged_id operation template_id actor_id = record {
  transaction_id = staged_id;
  operation = operation;
  state = proposed;
  actor_id = actor_id;
  created_at = s.first;
  updated_at = s.second;
  metadata = ("template_id", template_id) ∷ [];
  history = [];
}

module _ {J : Type 0} where
  -- The envelope that `stage_file` builds; `operation` is the text "stage_file:" and the template.
  unfoldable pub new_envelope :
      Stamps → String → String → Dict J → String → String → String → Result Error (StagedFile J)
  new_envelope s staged_id operation payload template_id actor_id actor_role = do
    t ← in_template (Templates.require template_id)
    _ ← in_template (check_fields t payload)
    transaction ←
        advance_if s.third (some (new_transaction s staged_id operation template_id actor_id))
          validated actor_id
    ok (record {
      staged_id = staged_id;
      template_id = template_id;
      actor_id = actor_id;
      actor_role = actor_role;
      payload = payload;
      staged_at = s.iso;
      approval_status = "pending";
      approver_id = none;
      resolved_at = none;
      final_path = none;
      log_record_id = some s.record_id;
      transaction = transaction;
    })

  -- `_persist_envelope`, which may raise, and the answer `value` of its caller.
  unfoldable pub persist_envelope :
      {A : Type 0} → Stamps → StagedFile J → A → Area J → Area J × Result Error A
  persist_envelope s e value a =
      if s.is_saved
      then (record a { envelopes = put e.staged_id e a.envelopes }, ok value)
      else (a, err save_failed)

  -- The envelope is saved where it could be built.
  unfoldable pub save :
      Stamps → Area J → Result Error (StagedFile J) → Area J × Result Error (StagedFile J)
  unfolding persist_envelope
  save s a (err e) = (a, err e)
  save s a (ok envelope) = persist_envelope s envelope envelope a

  unfoldable pub stage_file :
      Stamps
      → String
      → String
      → Dict J
      → String
      → String
      → String
      → Area J
      → Area J × Result Error (StagedFile J)
  stage_file s staged_id operation payload template_id actor_id actor_role a =
      save s a (new_envelope s staged_id operation payload template_id actor_id actor_role)

  unfoldable pub get_staged : String → Area J → Option (StagedFile J)
  get_staged staged_id a = get staged_id a.envelopes

  -- Whether an envelope passes the filter, which an empty or missing actor leaves open.
  abbrev pub wanted : Option String → StagedFile J → Bool
  wanted none e = true
  wanted (some actor) e = str_eq actor "" || str_eq e.actor_id actor

  unfoldable pub kept : Option String → Dict (StagedFile J) → List (StagedFile J)
  kept actor [] = []
  kept actor ((_, e) ∷ d) = let rest = kept actor d in if wanted actor e then e ∷ rest else rest

  unfoldable pub by_name : String × StagedFile J → String × StagedFile J → Bool
  unfolding text_leb
  by_name a b = text_leb a.0 b.0

  -- The files in the order of their names; ids are of one length, so that the suffix decides nothing.
  unfoldable pub list_staged : Option String → Area J → List (StagedFile J)
  unfolding sort by_name kept
  list_staged actor a = kept actor (sort by_name a.envelopes)

  -- The two tests of `_load_and_check`.
  unfoldable pub check_pending : String → Option (StagedFile J) → Result Error (StagedFile J)
  check_pending staged_id none = err (not_found staged_id)
  check_pending staged_id (some e) =
      if str_eq e.approval_status "pending"
      then ok e
      else err (already_resolved staged_id e.approval_status)

  unfoldable pub load_and_check : String → Area J → Result Error (StagedFile J)
  load_and_check staged_id a = check_pending staged_id (get_staged staged_id a)

  -- `approve_staged` up to the write: the envelope with its transaction committed.
  unfoldable pub commit : Stamps → String → String → Area J → Result Error (StagedFile J)
  commit s staged_id approver_id a = do
    e ← load_and_check staged_id a
    transaction ← advance_if s.first e.transaction committed approver_id
    _ ← in_template (Templates.require e.template_id)
    ok (record e { transaction = transaction })

  -- `approve_staged` after the write.
  unfoldable pub finish : Stamps → String → String → StagedFile J → Result Error (StagedFile J)
  finish s approver_id final e = do
    transaction ← advance_if s.second e.transaction finalized approver_id
    ok (record e {
      approval_status = "approved";
      approver_id = some approver_id;
      resolved_at = some s.iso;
      final_path = some final;
      log_record_id = some s.record_id;
      transaction = transaction;
    })

  unfoldable pub close_approval :
      Stamps → String → Area J → Result Error (StagedFile J) → Area J × Result Error String
  close_approval s final a (err x) = (a, err x)
  close_approval s final a (ok e) = persist_envelope s e final a

  -- What is left of an approval that raises after the write.
  unfoldable pub note_unsaved : String → Area J × Result Error String → Area J × Result Error String
  note_unsaved staged_id (a, ok final) = (a, ok final)
  note_unsaved staged_id (a, err x) = (record a { unsaved = staged_id ∷ a.unsaved }, err x)

  -- From the outcome of the write on: a file that was written stays written.
  unfoldable pub after_write :
      Stamps
      → String
      → String
      → Area J
      → StagedFile J
      → Result Error String
      → Area J × Result Error String
  after_write s staged_id approver_id a e (err x) = (a, err x)
  after_write s staged_id approver_id a e (ok final) = note_unsaved staged_id (
      close_approval s final (record a { written = staged_id ∷ a.written })
        (finish s approver_id final e))

  unfoldable pub after_commit :
      Stamps
      → Result Templates.Error String
      → String
      → String
      → Area J
      → Result Error (StagedFile J)
      → Area J × Result Error String
  after_commit s disk staged_id approver_id a (err x) = (a, err x)
  after_commit s disk staged_id approver_id a (ok e) =
      after_write s staged_id approver_id a e
        (in_template (write_from_template disk e.template_id e.payload))

  unfoldable pub approve_staged :
      Stamps
      → Result Templates.Error String
      → String
      → String
      → Area J
      → Area J × Result Error String
  approve_staged s disk staged_id approver_id a =
      after_commit s disk staged_id approver_id a (commit s staged_id approver_id a)

  -- The envelope that `reject_staged` saves.
  unfoldable pub rejected_envelope : Stamps → String → String → Area J → Result Error (StagedFile J)
  rejected_envelope s staged_id approver_id a = do
    e ← load_and_check staged_id a
    transaction ← advance_if s.first e.transaction rolled_back approver_id
    ok (record e {
      approval_status = "rejected";
      approver_id = some approver_id;
      resolved_at = some s.iso;
      log_record_id = some s.record_id;
      transaction = transaction;
    })

  -- `reject_staged` saves the envelope and returns nothing.
  unfoldable pub save_rejection :
      Stamps → Area J → Result Error (StagedFile J) → Area J × Result Error (Unit {0})
  unfolding persist_envelope
  save_rejection s a (err e) = (a, err e)
  save_rejection s a (ok envelope) = persist_envelope s envelope tt a

  unfoldable pub reject_staged :
      Stamps → String → String → Area J → Area J × Result Error (Unit {0})
  reject_staged s staged_id approver_id a =
      save_rejection s a (rejected_envelope s staged_id approver_id a)
