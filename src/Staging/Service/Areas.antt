-- ===== src/Staging/Service/Areas.antt =====
-- The staging areas that the calls of src/lumina/staging/staging_service.py reach.
use mathlib.Core.Path.{subst}
use lumina_framework.Base.{
  ℕ, suc, String, false, Option, none, some, [], ◌∷◌, Result, ok, err, str_eq, ◌≡◌, refl, sym, ap,
  ◌∙◌, ◌⊎◌, inl, inr, ne_of_test, eq_of_test, Bool-cases, Option-cases, Result-cases,
}
use lumina_framework.Base.Counting.{count}
use lumina_framework.Base.Dict.{Dict, get, put, get-put}
use lumina_framework.Core.StateMachine.{proposed, validated, finalized, rolled_back}
use lumina_framework.Core.StateMachine.Legal.{◌⟶◌}
use lumina_framework.Staging.Templates
use lumina_framework.Staging.Templates.{check_fields, write_from_template}
use lumina_framework.Staging.Service
use lumina_framework.Staging.Service.{
  StagedFile, Area, Stamps, template, Transaction, in_template, advance_if, new_transaction,
  new_envelope, persist_envelope, save, stage_file, get_staged, approve_staged, reject_staged,
}
use lumina_framework.Staging.Service.Approval.{
  IsPending, IsResolved, IsDue, approve_written, approve_unsaved, approve_refused, review_not_due,
  reject_pending, reject_unsaved, advance_if_edge,
}

module _ {J : Type 0} where
  -- What is stored under an id, how often that id's payload was written, and how often an approval of it
  -- raised after that.
  abbrev pub Fits : String → Option (StagedFile J) → ℕ → ℕ → Type 0
  Fits id none n k = (n ≡ 0) × (k ≡ 0)
  Fits id (some e) n k =
      (e.staged_id ≡ id)
      × ((IsPending e × (n ≡ k))
          ⊎ ((IsResolved "approved" finalized e × (n ≡ suc k))
              ⊎ (IsResolved "rejected" rolled_back e × (n ≡ k))))

  abbrev pub IsArea : Area J → Type 0
  IsArea a = (id : String) → Fits id (get id a.envelopes) (count id a.written) (count id a.unsaved)

  -- The areas that calls reach from the empty directory; a staged id is fresh, as a UUID is.
  pub data IsReached : Area J → Type 0 where
    empty : IsReached (record { envelopes = []; written = []; unsaved = [] })
    stage :
        (s : Stamps) (id operation template_id actor_id actor_role : String) (payload : Dict J)
        {a : Area J}
        → IsReached a
        → get_staged id a ≡ none
        → IsReached (stage_file s id operation payload template_id actor_id actor_role a).0
    approve :
        (s : Stamps) (disk : Result Templates.Error String) (id approver : String) {a : Area J}
        → IsReached a
        → IsReached (approve_staged s disk id approver a).0
    reject :
        (s : Stamps) (id approver : String) {a : Area J}
        → IsReached a
        → IsReached (reject_staged s id approver a).0

  -- Saving an envelope under its id keeps the area where the envelope fits.
  save-IsArea :
      (id : String) (e : StagedFile J) (a : Area J)
      → IsArea a
      → e.staged_id ≡ id
      → Fits id (some e) (count id a.written) (count id a.unsaved)
      → IsArea
          (record { envelopes = put id e a.envelopes; written = a.written; unsaved = a.unsaved })
  save-IsArea id e a h same fits j = elim (Bool-cases (str_eq id j)) [
    | inl t ↦ let p = eq_of_test id j t in rw (get-put id j e a.envelopes, t, ← p) fits
    | inr t ↦ rw (get-put id j e a.envelopes, t) (h j)
  ]

  moved_count :
      {id j : String} (a : Area J)
      → id ≡ j
      → count id a.written ≡ count id a.unsaved
      → count j a.written ≡ count j a.unsaved
  moved_count a p once = subst (λ i. count i a.written ≡ count i a.unsaved) p once

  write-IsArea :
      (id : String) (e : StagedFile J) (a : Area J)
      → IsArea a
      → e.staged_id ≡ id
      → IsResolved "approved" finalized e
      → count id a.written ≡ count id a.unsaved
      → IsArea (record {
        envelopes = put id e a.envelopes;
        written = id ∷ a.written;
        unsaved = a.unsaved;
      })
  unfolding count
  write-IsArea id e a h same done once j = elim (Bool-cases (str_eq id j)) [
    | inl t ↦
        let p = eq_of_test id j t in
        rw (get-put id j e a.envelopes, t)
          (same ∙ p, inr (inl (done, ap suc (moved_count a p once))))
    | inr t ↦ rw (get-put id j e a.envelopes, t) (h j)
  ]

  -- A write without a save keeps the area.
  unsaved-IsArea :
      (id : String) (e : StagedFile J) (a : Area J)
      → IsArea a
      → get_staged id a ≡ some e
      → e.staged_id ≡ id
      → IsPending e
      → count id a.written ≡ count id a.unsaved
      → IsArea
          (record { envelopes = a.envelopes; written = id ∷ a.written; unsaved = id ∷ a.unsaved })
  unfolding count get_staged
  unsaved-IsArea id e a h found same pending once j = elim (Bool-cases (str_eq id j)) [
    | inl t ↦
        let p = eq_of_test id j t in
        rw (t, ap (λ k. get k a.envelopes) (sym p) ∙ found)
          (same ∙ p, inl (pending, ap suc (moved_count a p once)))
    | inr t ↦ rw t (h j)
  ]

  -- The envelope that a validated file is staged with.
  abbrev staged : Stamps → String → String → String → String → Dict J → Transaction → StagedFile J
  staged s id template_id actor_id actor_role payload x = record {
    staged_id = id;
    template_id = template_id;
    actor_id = actor_id;
    actor_role = actor_role;
    payload = payload;
    staged_at = s.iso;
    approval_status = "pending";
    approver_id = none;
    resolved_at = none;
    final_path = none;
    log_record_id = some s.record_id;
    transaction = some x;
  }

  pub new_envelope-IsPending :
      (s : Stamps) (id operation template_id actor_id actor_role : String) (payload : Dict J)
      → ((e : StagedFile J) × (new_envelope s id operation payload template_id actor_id actor_role
            ≡ ok e)
          × (e.staged_id ≡ id)
          × IsPending e)
        ⊎ ((x : Service.Error) × (new_envelope s id operation payload template_id actor_id
                actor_role
              ≡ err x))
  unfolding new_envelope new_transaction
  new_envelope-IsPending s id operation template_id actor_id actor_role payload =
      elim (Result-cases (Templates.require template_id)) [
        | inr (x, e) ↦ inr (template x, rw e)
        | inl (t, e) ↦ elim (Result-cases (check_fields t payload)) [
          | inr (x, f) ↦ inr (template x, rw (e, f))
          | inl (u, f) ↦
              let (x, moved, closed) =
                advance_if_edge s.third (new_transaction s id operation template_id actor_id)
                  proposed validated actor_id refl ◌⟶◌.validate in
              inl (
                staged s id template_id actor_id actor_role payload x,
                rw (e, f, moved),
                refl,
                record { status = refl; transaction = x; has = refl; state = closed },
              )
        ]
      ]

  stage-IsArea :
      (s : Stamps) (id operation template_id actor_id actor_role : String) (payload : Dict J)
      (a : Area J)
      → IsArea a
      → get_staged id a ≡ none
      → IsArea (stage_file s id operation payload template_id actor_id actor_role a).0
  unfolding stage_file save persist_envelope get_staged
  stage-IsArea s id operation template_id actor_id actor_role payload a h fresh =
      elim (new_envelope-IsPending s id operation template_id actor_id actor_role payload) [
        | inr (x, failed) ↦ rw failed h
        | inl (e, made, same, pending) ↦ elim (Bool-cases s.is_saved) [
          | inr unsaved ↦ rw (made, unsaved) h
          | inl saved ↦
              let none_written =
                subst (λ o. Fits id o (count id a.written) (count id a.unsaved)) fresh (h id) in
              rw (made, saved)
                (subst
                  (λ k. IsArea (record {
                    envelopes = put k e a.envelopes;
                    written = a.written;
                    unsaved = a.unsaved;
                  }))
                  (sym same)
                  (save-IsArea id e a h same
                    (same, inl (pending, none_written.0 ∙ sym none_written.1))))
        ]
      ]

  resolved_refused :
      (e : StagedFile J) (status : String)
      → e.approval_status ≡ status
      → str_eq status "pending" ≡ false
      → ¬ IsDue (some e)
  resolved_refused e status is t due = ne_of_test status "pending" t (sym is ∙ due)

  not_due-IsArea :
      (s : Stamps) (disk : Result Templates.Error String) (id approver : String) (a : Area J)
      → IsArea a
      → ¬ IsDue (get_staged id a)
      → IsArea (approve_staged s disk id approver a).0 × IsArea (reject_staged s id approver a).0
  not_due-IsArea s disk id approver a h n =
      let (p, q) = review_not_due s disk id approver a n in rw (p, q) (h, h)

  -- The envelope of an id waits for its review, or a review of it is not due.
  pub review_cases :
      (id : String) (a : Area J)
      → IsArea a
      → ((e : StagedFile J) × (get_staged id a ≡ some e)
          × (e.staged_id ≡ id)
          × IsPending e
          × (count id a.written ≡ count id a.unsaved))
        ⊎ (¬ IsDue (get_staged id a))
  unfolding get_staged
  review_cases id a h = elim (Option-cases (get id a.envelopes)) [
    | inl gone ↦ inr (λ due. rw gone at due)
    | inr (e, found) ↦
        let fits = subst (λ o. Fits id o (count id a.written) (count id a.unsaved)) found (h id) in
        elim fits.1 [
          | inl (p, n) ↦ inl (e, found, fits.0, p, n)
          | inr (inl (r, _)) ↦
              inr (λ due. resolved_refused e _ r.approval_status refl (rw found at due))
          | inr (inr (r, _)) ↦
              inr (λ due. resolved_refused e _ r.approval_status refl (rw found at due))
        ]
  ]

  approve-IsArea :
      (s : Stamps) (disk : Result Templates.Error String) (id approver : String) (a : Area J)
      → IsArea a
      → IsArea (approve_staged s disk id approver a).0
  approve-IsArea s disk id approver a h = elim (review_cases id a h) [
    | inr n ↦ (not_due-IsArea s disk id approver a h n).0
    | inl (e, found, same, p, n) ↦
        elim (Result-cases (write_from_template disk e.template_id e.payload)) [
          | inr (x, refused) ↦ rw (approve_refused s disk id approver a e x found p refused) h
          | inl (path, wrote) ↦ elim (Bool-cases s.is_saved) [
            | inl saved ↦
                let (e', made, r) =
                  approve_written s disk id approver path a e found p wrote saved in
                rw (made, same) (write-IsArea id e' a h (r.same_id ∙ same) r.resolved n)
            | inr unsaved ↦
                rw (approve_unsaved s disk id approver path a e found p wrote unsaved)
                  (unsaved-IsArea id e a h found same p n)
          ]
        ]
  ]

  reject-IsArea :
      (s : Stamps) (id approver : String) (a : Area J)
      → IsArea a
      → IsArea (reject_staged s id approver a).0
  reject-IsArea s id approver a h = elim (review_cases id a h) [
    | inr n ↦ (not_due-IsArea s (ok "") id approver a h n).1
    | inl (e, found, same, p, n) ↦ elim (Bool-cases s.is_saved) [
      | inl saved ↦
          let (e', made, r, same', _) = reject_pending s id approver a e found p saved in
          rw (made, same) (save-IsArea id e' a h (same' ∙ same) (same' ∙ same, inr (inr (r, n))))
      | inr unsaved ↦ rw (reject_unsaved s id approver a e found p unsaved) h
    ]
  ]

  -- Whatever calls reach an area from the empty directory, every stored envelope carries the id it is
  -- stored under, and it is pending with a validated transaction, approved with a finalized one, or
  -- rejected with one that is rolled back; an id's payload was written as often as an approval of it raised
  -- after its write, and once more where its envelope is approved; it was never written, and no approval
  -- raised after a write, where nothing is stored under the id.
  pub reached-IsArea : {a : Area J} → IsReached a → IsArea a
  unfolding count get
  reached-IsArea empty = λ id. (refl, refl)
  reached-IsArea (stage s id operation template_id actor_id actor_role payload r fresh) =
      stage-IsArea s id operation template_id actor_id actor_role payload _ (reached-IsArea r) fresh
  reached-IsArea (approve s disk id approver r) =
      approve-IsArea s disk id approver _ (reached-IsArea r)
  reached-IsArea (reject s id approver r) = reject-IsArea s id approver _ (reached-IsArea r)
