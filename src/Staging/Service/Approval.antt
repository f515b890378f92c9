-- ===== src/Staging/Service/Approval.antt =====
-- What src/lumina/staging/staging_service.py answers on every branch of approve and reject.
use lumina_framework.Base.{
  ℕ, String, true, false, Option, none, some, ◌∷◌, Result, ok, err, ◌≡◌, refl, sym, ap, ◌∙◌, inl,
  inr, arith, test_of_ne, ok-ne-err, Result-cases, Option-cases, eq_iff,
}
use lumina_framework.Base.Dict.{Dict, put}
use lumina_framework.Core.StateMachine.{
  TransactionState, validated, committed, finalized, rolled_back,
}
use lumina_framework.Core.StateMachine.Legal.{◌⟶◌}
use lumina_framework.Core.StateMachine.Runs.{advance-Legal}
use lumina_framework.Staging.Templates
use lumina_framework.Staging.Templates.{Template, check_fields, write_from_template}
use lumina_framework.Staging.Service.{
  Transaction, StagedFile, Area, Error, not_found, already_resolved, template, Stamps, in_template,
  advance_if, persist_envelope, get_staged, check_pending, load_and_check, commit, finish,
  close_approval, note_unsaved, save_failed, after_write, after_commit, approve_staged,
  rejected_envelope, save_rejection, reject_staged,
}

-- Along an edge of the diagram the transaction of an envelope advances.
pub advance_if_edge :
    (now : ℕ) (t : Transaction) (s target : TransactionState) (actor : String)
    → t.state ≡ s
    → s ⟶ target
    → (t' : Transaction) × (advance_if now (some t) target actor ≡ ok (some t'))
      × (t'.state ≡ target)
unfolding advance_if
advance_if_edge now t s target actor e edge =
    let (y, p, q) = (advance-Legal now t target (some actor) none).0.1 (rw e edge) in (y, rw p, q)

-- The envelope that a pending review waits on: its transaction is validated.
pub record IsPending {J : Type 0} (e : StagedFile J) : Type 0 where
  pub status : e.approval_status ≡ "pending"
  pub transaction : Transaction
  pub has : e.transaction ≡ some transaction
  pub state : transaction.state ≡ validated

-- A resolved envelope has a closed transaction in the state that fits its status.
pub record IsResolved {J : Type 0} (status : String) (state : TransactionState) (e : StagedFile J)
    : Type 0 where
  pub approval_status : e.approval_status ≡ status
  pub transaction : Transaction
  pub has : e.transaction ≡ some transaction
  pub closed : transaction.state ≡ state

-- What an approval of a pending envelope saves.
pub record IsApproval {J : Type 0} (s : Stamps) (approver_id path : String) (e e' : StagedFile J)
    : Type 0 where
  pub resolved : IsResolved "approved" finalized e'
  pub same_id : e'.staged_id ≡ e.staged_id
  pub same_payload : e'.payload ≡ e.payload
  pub approver : e'.approver_id ≡ some approver_id
  pub time : e'.resolved_at ≡ some s.iso
  pub destination : e'.final_path ≡ some path

module _ {J : Type 0} where
  load_pending :
      (id : String) (a : Area J) (e : StagedFile J)
      → get_staged id a ≡ some e
      → IsPending e
      → load_and_check id a ≡ ok e
  unfolding load_and_check check_pending
  load_pending id a e found h =
      rw found (ground (arith, eq_iff e.approval_status "pending", h.status))

  pub commit_pending :
      (s : Stamps) (id approver : String) (a : Area J) (e : StagedFile J) (t : Template)
      → get_staged id a ≡ some e
      → IsPending e
      → Templates.require e.template_id ≡ ok t
      → (x : Transaction) × (commit s id approver a ≡ ok (record e { transaction = some x }))
        × (x.state ≡ committed)
  unfolding commit
  commit_pending s id approver a e t found h known =
      let (x, moved, closed) =
        advance_if_edge s.first h.transaction validated committed approver h.state ◌⟶◌.commit in
      (x, rw (load_pending id a e found h, h.has, moved, known), closed)

  commit_unknown :
      (s : Stamps) (id approver : String) (a : Area J) (e : StagedFile J) (x : Templates.Error)
      → get_staged id a ≡ some e
      → IsPending e
      → Templates.require e.template_id ≡ err x
      → commit s id approver a ≡ err (template x)
  unfolding commit
  commit_unknown s id approver a e x found h unknown =
      let (y, moved, _) =
        advance_if_edge s.first h.transaction validated committed approver h.state ◌⟶◌.commit in
      rw (load_pending id a e found h, h.has, moved, unknown)

  -- The envelope that a review which wrote the file saves.
  abbrev approved : Stamps → String → String → Transaction → StagedFile J → StagedFile J
  approved s approver path y e = record e {
    approval_status = "approved";
    approver_id = some approver;
    resolved_at = some s.iso;
    final_path = some path;
    log_record_id = some s.record_id;
    transaction = some y;
  }

  abbrev rejected : Stamps → String → Transaction → StagedFile J → StagedFile J
  rejected s approver x e = record e {
    approval_status = "rejected";
    approver_id = some approver;
    resolved_at = some s.iso;
    log_record_id = some s.record_id;
    transaction = some x;
  }

  finish_made :
      (s : Stamps) (approver path : String) (e : StagedFile J) (x y : Transaction)
      → advance_if s.second (some x) finalized approver ≡ ok (some y)
      → finish s approver path (record e { transaction = some x })
        ≡ ok (approved s approver path y e)
  unfolding finish
  finish_made s approver path e x y moved = rw moved

  -- The write fails as the look-up of its template does.
  write_unknown :
      (disk : Result Templates.Error String) (id : String) (payload : Dict J) (x : Templates.Error)
      → Templates.require id ≡ err x
      → write_from_template disk id payload ≡ err x
  unfolding write_from_template
  write_unknown disk id payload x unknown = rw unknown

  pub write_known :
      (disk : Result Templates.Error String) (id : String) (payload : Dict J) (path : String)
      → write_from_template disk id payload ≡ ok path
      → (t : Template) × (Templates.require id ≡ ok t)
  write_known disk id payload path wrote = elim (Result-cases (Templates.require id)) [
    | inl known ↦ known
    | inr (x, unknown) ↦ absurd (ok-ne-err (sym wrote ∙ write_unknown disk id payload x unknown))
  ]

  -- Where a stored envelope is pending with a validated transaction and the write succeeds, as does the
  -- save of the envelope, approve
  -- returns the written path, records one more write of the id and saves the envelope, with its payload,
  -- as approved with a finalized transaction, the approver, the time and the path.
  pub approve_written :
      (s : Stamps) (disk : Result Templates.Error String) (id approver path : String) (a : Area J)
      (e : StagedFile J)
      → get_staged id a ≡ some e
      → IsPending e
      → write_from_template disk e.template_id e.payload ≡ ok path
      → s.is_saved ≡ true
      → (e' : StagedFile J) × (approve_staged s disk id approver a ≡ (
        record {
          envelopes = put e.staged_id e' a.envelopes;
          written = id ∷ a.written;
          unsaved = a.unsaved;
        },
        ok path,
      ))
        × IsApproval s approver path e e'
  unfolding approve_staged after_commit after_write close_approval persist_envelope note_unsaved
  approve_written s disk id approver path a e found h wrote saved =
      let (t, known) = write_known disk e.template_id e.payload path wrote in
      let (x, made, is_committed) = commit_pending s id approver a e t found h known in
      let (y, moved, closed) =
        advance_if_edge s.second x committed finalized approver is_committed ◌⟶◌.finalize in
      (
        approved s approver path y e,
        rw (made, wrote, finish_made s approver path e x y moved, saved),
        record {
          resolved = record {
            approval_status = refl;
            transaction = y;
            has = refl;
            closed = closed;
          };
          same_id = refl;
          same_payload = refl;
          approver = refl;
          time = refl;
          destination = refl;
        },
      )

  -- Where the save of the envelope fails after the write, approve raises and the envelopes are unchanged,
  -- but the payload is written.
  pub approve_unsaved :
      (s : Stamps) (disk : Result Templates.Error String) (id approver path : String) (a : Area J)
      (e : StagedFile J)
      → get_staged id a ≡ some e
      → IsPending e
      → write_from_template disk e.template_id e.payload ≡ ok path
      → s.is_saved ≡ false
      → approve_staged s disk id approver a ≡ (
        record { envelopes = a.envelopes; written = id ∷ a.written; unsaved = id ∷ a.unsaved },
        err save_failed,
      )
  unfolding approve_staged after_commit after_write close_approval persist_envelope note_unsaved
  approve_unsaved s disk id approver path a e found h wrote failed =
      let (t, known) = write_known disk e.template_id e.payload path wrote in
      let (x, made, is_committed) = commit_pending s id approver a e t found h known in
      let (y, moved, closed) =
        advance_if_edge s.second x committed finalized approver is_committed ◌⟶◌.finalize in
      rw (made, wrote, finish_made s approver path e x y moved, failed)

  -- Where a stored envelope is pending with a validated transaction and the write fails, approve raises
  -- the error of the write and the area is unchanged: the committed transaction is not saved.
  pub approve_refused :
      (s : Stamps) (disk : Result Templates.Error String) (id approver : String) (a : Area J)
      (e : StagedFile J) (x : Templates.Error)
      → get_staged id a ≡ some e
      → IsPending e
      → write_from_template disk e.template_id e.payload ≡ err x
      → approve_staged s disk id approver a ≡ (a, err (template x))
  unfolding approve_staged after_commit after_write
  approve_refused s disk id approver a e x found h refused =
      elim (Result-cases (Templates.require e.template_id)) [
        | inl (t, known) ↦
            let (y, made, _) = commit_pending s id approver a e t found h known in
            rw (made, refused)
        | inr (z, unknown) ↦
            let same = sym (write_unknown disk e.template_id e.payload z unknown) ∙ refused in
            rw (commit_unknown s id approver a e z found h unknown)
              (ap (λ (r : Result Templates.Error String). (a, in_template r)) same)
      ]

  -- What a review that is not due answers.
  unfoldable pub not_due : String → Option (StagedFile J) → Error
  not_due id none = not_found id
  not_due id (some e) = already_resolved id e.approval_status

  -- No envelope is stored under the id, or one whose status is no longer "pending".
  abbrev pub IsDue : Option (StagedFile J) → Type 0
  IsDue none = ⊥
  IsDue (some e) = e.approval_status ≡ "pending"

  load_not_due :
      (id : String) (a : Area J)
      → ¬ IsDue (get_staged id a)
      → load_and_check id a ≡ err (not_due id (get_staged id a))
  unfolding load_and_check check_pending not_due
  load_not_due id a h = elim (Option-cases (get_staged id a)) [
    | inl gone ↦ rw gone
    | inr (e, found) ↦ rw (found, test_of_ne e.approval_status "pending" (λ due. h (rw found due)))
  ]

  -- Where no envelope is stored under the id, or one that is not pending, approve and reject both raise
  -- (not found, or already resolved with its status) and leave the area unchanged.
  pub review_not_due :
      (s : Stamps) (disk : Result Templates.Error String) (id approver : String) (a : Area J)
      → ¬ IsDue (get_staged id a)
      → (approve_staged s disk id approver a ≡ (a, err (not_due id (get_staged id a))))
        × (reject_staged s id approver a ≡ (a, err (not_due id (get_staged id a))))
  unfolding approve_staged after_commit commit reject_staged rejected_envelope save_rejection
  review_not_due s disk id approver a h = rw (load_not_due id a h) (refl, refl)

  -- Where a stored envelope is pending with a validated transaction and its save succeeds, reject returns,
  -- writes no payload and saves the envelope under its id as rejected with a rolled back transaction, its path unchanged.
  pub reject_pending :
      (s : Stamps) (id approver : String) (a : Area J) (e : StagedFile J)
      → get_staged id a ≡ some e
      → IsPending e
      → s.is_saved ≡ true
      → (e' : StagedFile J) × (reject_staged s id approver a ≡ (
        record {
          envelopes = put e.staged_id e' a.envelopes;
          written = a.written;
          unsaved = a.unsaved;
        },
        ok tt,
      ))
        × IsResolved "rejected" rolled_back e'
        × (e'.staged_id ≡ e.staged_id)
        × (e'.final_path ≡ e.final_path)
  unfolding reject_staged rejected_envelope save_rejection persist_envelope
  reject_pending s id approver a e found h saved =
      let (x, moved, closed) =
        advance_if_edge s.first h.transaction validated rolled_back approver h.state ◌⟶◌.refuse in
      (
        rejected s approver x e,
        rw (load_pending id a e found h, h.has, moved, saved),
        record { approval_status = refl; transaction = x; has = refl; closed = closed },
        refl,
        refl,
      )

  -- Where that save fails, reject raises and nothing is changed.
  pub reject_unsaved :
      (s : Stamps) (id approver : String) (a : Area J) (e : StagedFile J)
      → get_staged id a ≡ some e
      → IsPending e
      → s.is_saved ≡ false
      → reject_staged s id approver a ≡ (a, err save_failed)
  unfolding reject_staged rejected_envelope save_rejection persist_envelope
  reject_unsaved s id approver a e found h failed =
      let (x, moved, closed) =
        advance_if_edge s.first h.transaction validated rolled_back approver h.state ◌⟶◌.refuse in
      rw (load_pending id a e found h, h.has, moved, failed)
