-- ===== src/Staging/Service/Once.antt =====
-- Reviews of a file of src/lumina/staging/staging_service.py after one that returned or raised.
use mathlib.Core.Path.{subst}
use lumina_framework.Base.{
  String, some, Result, ok, err, ◌≡◌, refl, sym, ap, ◌∙◌, inl, inr, ne_of_test, test_of_eq,
  Result-cases, Bool-cases, ok-ne-err,
}
use lumina_framework.Base.Dict.{get, get-put}
use lumina_framework.Staging.Templates
use lumina_framework.Staging.Templates.{write_from_template}
use lumina_framework.Staging.Service
use lumina_framework.Staging.Service.{
  StagedFile, Area, Stamps, already_resolved, get_staged, approve_staged, reject_staged,
}
use lumina_framework.Staging.Service.Approval.{
  not_due, approve_written, approve_unsaved, approve_refused, review_not_due,
}
use lumina_framework.Staging.Service.Areas.{IsReached, reached-IsArea, review_cases}

module _ {J : Type 0} where
  -- In a reached area, an approval that raises leaves every envelope as it was.
  pub approve-err :
      (s : Stamps) (disk : Result Templates.Error String) (id approver : String) {a a' : Area J}
      {x : Service.Error}
      → IsReached a
      → approve_staged s disk id approver a ≡ (a', err x)
      → a'.envelopes ≡ a.envelopes
  approve-err s disk id approver {a} {a'} r raised = elim (review_cases id a (reached-IsArea r)) [
    | inr n ↦ ap (λ p. p.0.envelopes) (sym raised ∙ (review_not_due s disk id approver a n).0)
    | inl (e, found, same, p, n) ↦
        elim (Result-cases (write_from_template disk e.template_id e.payload)) [
          | inr (y, refused) ↦
              ap (λ p. p.0.envelopes)
                (sym raised ∙ approve_refused s disk id approver a e y found p refused)
          | inl (path, wrote) ↦ elim (Bool-cases s.is_saved) [
            | inl saved ↦
                let made = (approve_written s disk id approver path a e found p wrote saved).1 in
                absurd (ok-ne-err (ap (λ p. p.1) (sym made ∙ raised)))
            | inr unsaved ↦
                ap (λ p. p.0.envelopes)
                  (sym raised ∙ approve_unsaved s disk id approver path a e found p wrote unsaved)
          ]
        ]
  ]

  -- The envelope of an approval that returned is approved in the area that it leaves.
  approved_after :
      (s : Stamps) (disk : Result Templates.Error String) (id approver : String) {a a' : Area J}
      {path : String}
      → IsReached a
      → approve_staged s disk id approver a ≡ (a', ok path)
      → (e' : StagedFile J) × (get_staged id a' ≡ some e') × (e'.approval_status ≡ "approved")
  unfolding get_staged
  approved_after s disk id approver {a} {a'} r done = elim (review_cases id a (reached-IsArea r)) [
    | inr n ↦
        absurd (ok-ne-err (ap (λ p. p.1) (sym done ∙ (review_not_due s disk id approver a n).0)))
    | inl (e, found, same, p, n) ↦
        elim (Result-cases (write_from_template disk e.template_id e.payload)) [
          | inr (y, refused) ↦ absurd (
              ok-ne-err (
                ap (λ p. p.1)
                  (sym done ∙ approve_refused s disk id approver a e y found p refused)))
          | inl (path', wrote) ↦ elim (Bool-cases s.is_saved) [
            | inl saved ↦
                let (e', made, h) =
                  approve_written s disk id approver path' a e found p wrote saved in
                (
                  e',
                  ap (λ p. get id p.0.envelopes) (sym done ∙ made)
                      ∙ rw (get-put e.staged_id id e' a.envelopes, test_of_eq e.staged_id id same),
                  h.resolved.approval_status,
                )
            | inr unsaved ↦
                let failed = approve_unsaved s disk id approver path' a e found p wrote unsaved in
                absurd (ok-ne-err (ap (λ p. p.1) (sym done ∙ failed)))
          ]
        ]
  ]

  -- After an approval that returned, in a reached area, every later approval and rejection of that id
  -- raises "already resolved (approved)" and changes nothing.
  pub approve_once :
      (s s' : Stamps) (disk disk' : Result Templates.Error String) (id approver approver' : String)
      {a a' : Area J} {path : String}
      → IsReached a
      → approve_staged s disk id approver a ≡ (a', ok path)
      → (approve_staged s' disk' id approver' a' ≡ (a', err (already_resolved id "approved")))
        × (reject_staged s' id approver' a' ≡ (a', err (already_resolved id "approved")))
  unfolding not_due
  approve_once s s' disk disk' id approver approver' {a} {a'} r done =
      let (e', found, status) = approved_after s disk id approver r done in
      let later =
        review_not_due s' disk' id approver' a'
          (λ due. ne_of_test "approved" "pending" refl (sym status ∙ (rw found at due))) in
      subst
        (λ x.
          (approve_staged s' disk' id approver' a' ≡ (a', err x))
          × (reject_staged s' id approver' a' ≡ (a', err x)))
        (ap (not_due id) found ∙ ap (already_resolved id) status) later
