-- ===== src/Daemon/Report/Approvals.antt =====
-- What a sequence of decisions leaves of a proposal of src/lumina/daemon/report.py.
use mathlib.Core.List.{Memᴰ}
use mathlib.Core.Bool.{false≢true}
use lumina_framework.Base.{
  All-map, All-mem, String, Bool, true, false, ◌&&◌, ◌||◌, Option, none, some, List, [], ◌∷◌, ◌++◌,
  ◌≡◌, ◌≢◌, ◌↔◌, refl, sym, ap, ◌∙◌, str_eq, if◌then◌else◌, eq_iff, Bool-cases, Option-cases, inl,
  inr, All, eq_of_test, eq_refl,
}
use lumina_framework.Base.Select.{some_injective}
use lumina_framework.Base.Dict.{Dict, get, put, get-put}
use lumina_framework.Daemon.Report.{
  Proposal, is_decision, is_approval, all_approved, approved_status, decide,
}

module _ {J : Type 0} where
  -- The decisions of a list, in order.
  unfoldable pub decide_all : List (String × String) → Proposal J → Proposal J
  unfolding decide
  decide_all [] p = p
  decide_all ((domain_id, decision) ∷ ds) p = decide_all ds (decide domain_id decision p)

-- The last decision of an approver.
unfoldable pub last_decision : String → List (String × String) → Option String
last_decision r [] = none
last_decision r ((domain_id, decision) ∷ ds) = elim (last_decision r ds) [
  | some d ↦ some d
  | none ↦ if str_eq domain_id r then some decision else none
]

abbrev newest : Option String → Option String → Option String
newest none o = o
newest (some d) o = some d

newest-some :
    (o : Option String) (d : String) (e : Option String) → o ≡ some d → newest o e ≡ some d
newest-some o d e h = rw h

module _ {J : Type 0} where
  decide_all-approvals :
      (ds : List (String × String)) (p : Proposal J) (r : String)
      → get r (decide_all ds p).approvals ≡ newest (last_decision r ds) (get r p.approvals)
  unfolding decide_all last_decision decide
  decide_all-approvals [] p r = refl
  decide_all-approvals ((domain_id, decision) ∷ ds) p r =
      decide_all-approvals ds (decide domain_id decision p) r
      ∙ elim (Option-cases (last_decision r ds)) [
        | inr (d, e) ↦ rw e
        | inl e ↦ elim (Bool-cases (str_eq domain_id r)) [
          | inl t ↦ rw (e, t) (get-put domain_id r decision p.approvals ∙ rw t)
          | inr t ↦ rw (e, t) (get-put domain_id r decision p.approvals ∙ rw t)
        ]
      ]

  decide_all-required :
      (ds : List (String × String)) (p : Proposal J)
      → (decide_all ds p).required_approvers ≡ p.required_approvers
  unfolding decide_all decide
  decide_all-required [] p = refl
  decide_all-required ((domain_id, decision) ∷ ds) p =
      decide_all-required ds (decide domain_id decision p)

  decide_all-append :
      (ds es : List (String × String)) (p : Proposal J)
      → decide_all (ds ++ es) p ≡ decide_all es (decide_all ds p)
  unfolding decide_all
  decide_all-append [] es p = refl
  decide_all-append ((domain_id, decision) ∷ ds) es p =
      decide_all-append ds es (decide domain_id decision p)

-- All of them have approved.
abbrev pub HaveApproved : List (String × String) → List String → Type 0
HaveApproved ds = All (λ r. last_decision r ds ≡ some "approved")

is_approval_iff : (o : Option String) → (is_approval o ≡ true) ↔ (o ≡ some "approved")
unfolding is_approval
is_approval_iff none = (λ h. cc, λ h. cc)
is_approval_iff (some d) = (λ h. ap some (eq_of_test d "approved" h), λ h. ap is_approval h)

and_true : (a b : Bool) → (a && b) ≡ true → (a ≡ true) × (b ≡ true)
and_true true b h = (refl, h)
and_true false b h = cc

all_approved-All :
    (approvals : Dict String) (rs : List String)
    → (all_approved approvals rs ≡ true) ↔ All (λ r. get r approvals ≡ some "approved") rs
unfolding all_approved
all_approved-All approvals [] = (λ h. tt, λ h. refl)
all_approved-All approvals (r ∷ rs) =
    let (there, back) = all_approved-All approvals rs in
    let (to, from) = is_approval_iff (get r approvals) in
    (
      λ h.
          let (a, b) = and_true (is_approval (get r approvals)) (all_approved approvals rs) h in
          (to a, there b),
      λ h. rw (from h.0, back h.1),
    )

-- The status after a decision, where approvers are required.
abbrev status_of : Dict String → List String → String → String
status_of approvals rs decision =
    if str_eq decision "rejected"
    then "rejected"
    else if all_approved approvals rs
    then "approved"
    else "pending"

rejected_ne_approved : ◌≢◌ {A = String} "rejected" "approved"
rejected_ne_approved h = false≢true ((eq_iff "rejected" "approved").1 h)

pending_ne_approved : ◌≢◌ {A = String} "pending" "approved"
pending_ne_approved h = false≢true ((eq_iff "pending" "approved").1 h)

or_right : (a b : Bool) → (a || b) ≡ true → b ≡ false → a ≡ true
or_right true b h e = refl
or_right false b h e = absurd (false≢true (sym e ∙ h))

approved_status-required :
    (approvals : Dict String) (rs : List String) (decision : String)
    → rs ≢ []
    → approved_status approvals rs decision
      ≡ (if all_approved approvals rs then "approved" else "pending")
unfolding approved_status
approved_status-required approvals [] decision h = absurd (h refl)
approved_status-required approvals (r ∷ rs) decision h = refl

approved_iff :
    (approvals : Dict String) (rs : List String) (decision : String)
    → is_decision decision ≡ true
    → (status_of approvals rs decision ≡ "approved")
      ↔ (decision ≡ "approved") × (all_approved approvals rs ≡ true)
unfolding is_decision
approved_iff approvals rs decision valid = elim (Bool-cases (str_eq decision "rejected")) [
  | inl t ↦ (
    λ h. absurd (rejected_ne_approved (rw t at h)),
    λ (a, b). absurd (rejected_ne_approved (sym (eq_of_test decision "rejected" t) ∙ a)),
  )
  | inr t ↦ elim (Bool-cases (all_approved approvals rs)) [
    | inl u ↦ (
      λ h. (eq_of_test decision "approved" (or_right (str_eq decision "approved") _ valid t), u),
      λ _. rw (t, u),
    )
    | inr u ↦ (
      λ h. absurd (pending_ne_approved (rw (t, u) at h)),
      λ (a, b). absurd (false≢true (sym u ∙ b)),
    )
  ]
]

decide-status :
    {J : Type 0} (domain_id decision : String) (p : Proposal J)
    → p.required_approvers ≢ []
    → (decide domain_id decision p).status
      ≡ status_of (put domain_id decision p.approvals) p.required_approvers decision
unfolding decide
decide-status domain_id decision p some_required = rw (
    approved_status-required (put domain_id decision p.approvals) p.required_approvers decision
      some_required)

newest-none : (o : Option String) → newest o none ≡ o
newest-none none = refl
newest-none (some d) = refl

decide_all-last_decision :
    {J : Type 0} (p : Proposal J) (ds : List (String × String)) (r : String)
    → p.approvals ≡ []
    → get r (decide_all ds p).approvals ≡ last_decision r ds
unfolding get
decide_all-last_decision p ds r fresh =
    decide_all-approvals ds p r
    ∙ ap (λ a. newest (last_decision r ds) (get r a)) fresh
    ∙ newest-none (last_decision r ds)

decide_all-status :
    {J : Type 0} (p : Proposal J) (ds : List (String × String)) (domain_id decision : String)
    → p.required_approvers ≢ []
    → (decide_all (ds ++ (domain_id, decision) ∷ []) p).status
      ≡ status_of
          (decide_all (ds ++ (domain_id, decision) ∷ []) p).approvals
          p.required_approvers
          decision
unfolding decide_all decide
decide_all-status {J} p ds domain_id decision some_required =
    let q = decide_all ds p in
    let same = decide_all-append ds ((domain_id, decision) ∷ []) p in
    let kept = decide_all-required ds p in
    ap (λ (x : Proposal J). x.status) same
    ∙ decide-status domain_id decision q (λ none_required. some_required (sym kept ∙ none_required))
    ∙ ap (λ rs. status_of (put domain_id decision q.approvals) rs decision) kept
    ∙ ap (λ (x : Proposal J). status_of x.approvals p.required_approvers decision) (sym same)

-- Where approvers are required of a proposal without decisions, a sequence of decisions that ends in one of the
-- two leaves it approved exactly if the last decision is an approval and the last decision of each required
-- approver is one.
pub decide_all-approved_iff :
    {J : Type 0} (p : Proposal J) (ds : List (String × String)) (domain_id decision : String)
    → p.approvals ≡ []
    → p.required_approvers ≢ []
    → is_decision decision ≡ true
    → ((decide_all (ds ++ (domain_id, decision) ∷ []) p).status ≡ "approved")
      ↔ (decision ≡ "approved")
        × HaveApproved (ds ++ (domain_id, decision) ∷ []) p.required_approvers
decide_all-approved_iff p ds domain_id decision fresh some_required valid =
    let es = ds ++ (domain_id, decision) ∷ [] in
    let end = decide_all-status p ds domain_id decision some_required in
    let (to, from) = approved_iff (decide_all es p).approvals p.required_approvers decision valid in
    let (there, back) = all_approved-All (decide_all es p).approvals p.required_approvers in
    let last = λ (r : String). decide_all-last_decision p es r fresh in
    (
      λ h.
          let (a, b) = to (sym end ∙ h) in
          (
            a,
            All-map (λ r. last_decision r es ≡ some "approved") p.required_approvers
                (λ r e. sym (last r) ∙ e) (there b),
          ),
      λ (a, b).
          end
          ∙ from (
            a,
            back (
                All-map (λ r. get r (decide_all es p).approvals ≡ some "approved")
                  p.required_approvers (λ r e. last r ∙ e) b),
          ),
    )

not_all_approved :
    (approvals : Dict String) (rs : List String) (r : String)
    → Memᴰ r rs
    → get r approvals ≡ some "rejected"
    → all_approved approvals rs ≡ false
not_all_approved approvals rs r m e = elim (Bool-cases (all_approved approvals rs)) [
  | inr f ↦ f
  | inl t ↦ absurd (
      rejected_ne_approved (
        some_injective (
          sym e
          ∙ All-mem (λ r. get r approvals ≡ some "approved") ((all_approved-All approvals rs).0 t)
              m)))
]

Memᴰ-nonempty : {r : String} {rs : List String} → Memᴰ r rs → rs ≢ []
Memᴰ-nonempty {rs = []} m h = elim m [ ]
Memᴰ-nonempty {rs = x ∷ xs} m h = cc

differ_test : (a b : String) → a ≢ b → str_eq b a ≡ false
differ_test a b differ = elim (Bool-cases (str_eq b a)) [
  | inl t ↦ absurd (differ (sym (eq_of_test b a t)))
  | inr f ↦ f
]

still_rejected :
    (approvals : Dict String) (rejecter other : String)
    → rejecter ≢ other
    → get rejecter (put other "approved" (put rejecter "rejected" approvals)) ≡ some "rejected"
still_rejected approvals rejecter other differ =
    get-put other rejecter "approved" (put rejecter "rejected" approvals)
    ∙ rw (differ_test rejecter other differ)
        (get-put rejecter rejecter "rejected" approvals ∙ rw (eq_refl rejecter))

-- The approval of another approver reopens a proposal that a required approver has rejected: it is pending.
pub reject-approve :
    {J : Type 0} (p : Proposal J) (rejecter other : String)
    → Memᴰ rejecter p.required_approvers
    → rejecter ≢ other
    → ((decide rejecter "rejected" p).status ≡ "rejected")
      × ((decide other "approved" (decide rejecter "rejected" p)).status ≡ "pending")
unfolding decide
reject-approve p rejecter other listed differ =
    let some_required = Memᴰ-nonempty listed in
    let undone =
      not_all_approved (put other "approved" (put rejecter "rejected" p.approvals))
        p.required_approvers rejecter listed (still_rejected p.approvals rejecter other differ) in
    (
      decide-status rejecter "rejected" p some_required,
      decide-status other "approved" (decide rejecter "rejected" p) some_required ∙ rw undone,
    )
