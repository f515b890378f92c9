-- ===== src/Daemon/Scheduler/Found.antt =====
-- Which proposals of the history src/lumina/daemon/scheduler.py resolves and lists.
use mathlib.Core.List.{Memᴰ}
use mathlib.Core.Path.{subst}
use mathlib.Core.Bool.{false≢true}
use lumina_framework.Base.{
  ◌<◌, ◌≤◌, String, Bool, true, false, ◌&&◌, Option, none, List, [], ◌∷◌, map, ◌≡◌, ◌≢◌, ◌↔◌, ◌⊎◌,
  refl, sym, ap, ◌∙◌, str_eq, arith, eq_iff, Bool-cases, inl, inr, eq_of_test,
}
use lumina_framework.Base.Counting.{count}
use lumina_framework.Base.Select.{Memᴰ-filter, filter-Memᴰ}
use lumina_framework.Daemon.Report.{Proposal, is_decision}
use lumina_framework.Daemon.Scheduler.{Scheduler}
use lumina_framework.Daemon.Scheduler.Review.{
  is_pending, get_pending_proposals, resolve_in, resolve_proposal,
}
use lumina_framework.Daemon.Scheduler.Flat.{
  proposals_of, pending_in_runs-flat, resolve_in_runs-flat, resolve_in_iff, resolve_in_runs_none,
}

-- Resolving a proposal returns true exactly if the action is one of the two and a proposal of the history has
-- the id; where it returns false, nothing changes.
pub resolve_proposal_found_iff :
    {J : Type 0} (id action : String) (d : Option String) (s : Scheduler J)
    → (((resolve_proposal id action d s).1 ≡ true)
        ↔ (is_decision action ≡ true)
          × ((p : Proposal J) × Memᴰ p (proposals_of s.runs) × (p.proposal_id ≡ id)))
      × ((resolve_proposal id action d s).1 ≡ false → (resolve_proposal id action d s).0 ≡ s)
unfolding resolve_proposal
resolve_proposal_found_iff id action d s =
    let flat = ap (λ x. x.1) (resolve_in_runs-flat id action d s.runs) in
    let (to, from) = resolve_in_iff id action d (proposals_of s.runs) in
    elim (Bool-cases (is_decision action)) [
      | inr t ↦ (
        (λ h. absurd (false≢true (rw t at h)), λ (a, _). absurd (false≢true (sym t ∙ a))),
        λ _. rw t,
      )
      | inl t ↦ (
        (λ h. (t, to (sym flat ∙ (rw t at h))), λ (_, p). rw t (flat ∙ from p)),
        λ h. rw t (
            ap (λ rs. record s { runs = rs })
              (resolve_in_runs_none id action d s.runs (rw t at h))),
      )
    ]

-- The listed proposals are those of the history that are pending and of the domain that is asked for, if one is.
pub get_pending_proposals_iff :
    {J : Type 0} (d : Option String) (s : Scheduler J) (p : Proposal J)
    → Memᴰ p (get_pending_proposals d s) ↔ Memᴰ p (proposals_of s.runs) × (is_pending d p ≡ true)
unfolding get_pending_proposals
get_pending_proposals_iff d s p =
    let flat = pending_in_runs-flat d s.runs in
    (
      λ m. Memᴰ-filter (is_pending d) (proposals_of s.runs) (subst (Memᴰ p) flat m),
      λ (m, t). subst (Memᴰ p) (sym flat) (filter-Memᴰ (is_pending d) (proposals_of s.runs) m t),
    )

abbrev pub proposal_ids : {J : Type 0} → List (Proposal J) → List String
proposal_ids = map (λ q. q.proposal_id)

counted :
    {J : Type 0} (id : String) (ps : List (Proposal J)) (p : Proposal J)
    → Memᴰ p ps
    → p.proposal_id ≡ id
    → 0 < count id (proposal_ids ps)
unfolding count
counted id [] p m same = elim m [ ]
counted {J} id (q ∷ ps) p (Memᴰ.head e) same =
    ground
      (arith, (eq_iff q.proposal_id id).1 (ap (λ (x : Proposal J). x.proposal_id) (sym e) ∙ same))
counted id (q ∷ ps) p (Memᴰ.tail m) same = ground (arith, counted id ps p m same)

Memᴰ-uncons : {A : Type 0} {a x : A} {xs : List A} → Memᴰ a (x ∷ xs) → (a ≡ x) ⊎ Memᴰ a xs
Memᴰ-uncons (Memᴰ.head e) = inl e
Memᴰ-uncons (Memᴰ.tail m) = inr m

cleared :
    {J : Type 0} (id action : String) (ps : List (Proposal J)) (p : Proposal J)
    → count id (proposal_ids ps) ≤ 1
    → Memᴰ p (resolve_in id action none ps).0
    → p.proposal_id ≡ id
    → p.status ≡ action
unfolding resolve_in count
cleared id action [] p once m same = elim m [ ]
cleared id action (q ∷ ps) p once m same = elim (Bool-cases (str_eq q.proposal_id id)) [
  | inl t ↦ elim (Memᴰ-uncons (rw t at m)) [
    | inl e ↦ ap (λ x. x.status) e
    | inr k ↦ absurd (omega (arith, counted id ps p k same, rw t at once))
  ]
  | inr t ↦ elim (Memᴰ-uncons (rw t at m)) [
    | inl e ↦
        absurd (
          false≢true (sym t ∙ (eq_iff q.proposal_id id).1 (ap (λ x. x.proposal_id) (sym e) ∙ same)))
    | inr k ↦ cleared id action ps p (rw t at once) k same
  ]
]

pending_is_no_decision : (action : String) → is_decision action ≡ true → action ≢ "pending"
unfolding is_decision
pending_is_no_decision action valid e = false≢true (subst (λ a. is_decision a ≡ true) e valid)

and_left : (a b : Bool) → (a && b) ≡ true → a ≡ true
and_left true b h = refl
and_left false b h = cc

-- Right after a decision that names no domain on a proposal's id, which no other proposal of the history has, no
-- pending proposal has that id, not even one that approvers are required of.
pub resolve_proposal-pending :
    {J : Type 0} (id action : String) (d : Option String) (s : Scheduler J) (p : Proposal J)
    → is_decision action ≡ true
    → count id (proposal_ids (proposals_of s.runs)) ≤ 1
    → Memᴰ p (get_pending_proposals d (resolve_proposal id action none s).0)
    → p.proposal_id ≢ id
unfolding resolve_proposal
resolve_proposal-pending id action d s p valid once m same =
    let s' = (resolve_proposal id action none s).0 in
    let (listed, pending) = (get_pending_proposals_iff d s' p).0 m in
    let flat = ap (λ x. x.0) (resolve_in_runs-flat id action none s.runs) in
    let status =
      cleared id action (proposals_of s.runs) p once
        (subst (λ l. Memᴰ p l) flat (rw valid at listed)) same in
    pending_is_no_decision action valid
      (sym status ∙ eq_of_test p.status "pending" (and_left _ _ pending))
