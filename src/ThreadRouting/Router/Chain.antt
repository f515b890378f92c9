-- ===== src/ThreadRouting/Router/Chain.antt =====
-- The chain of conditions of `decide_thread_route` in src/lumina/thread_routing/router.py.
use lumina_framework.Base.{
  ◌≤◌, String, true, false, not, ◌&&◌, Option, none, some, List, [], ◌∷◌, str_eq, leb, ◌≡◌, ◌≢◌,
  refl, sym, ap, ◌∙◌, ◌⊎◌, inl, inr, arith, Bool-cases, ne_of_test,
}
use lumina_framework.ThreadRouting.Router.{
  RoutingAction, RationaleCode, ThreadRoutingPolicy, ThreadCandidate, head?, find_active, drifted,
  score_of, Choice, create, fork_or_create, attach_or, choose,
}

-- The chain of conditions, case by case.
module _ (policy : ThreadRoutingPolicy) (generated : String) where
  fork_or_create-not_attach :
      (best found : Option ThreadCandidate) (active : Option String)
      → (fork_or_create policy best found active generated).decision ≡ RoutingAction.attach_existing
      → ⊥
  unfolding fork_or_create
  fork_or_create-not_attach best found none h = cc
  fork_or_create-not_attach best found (some t) h = ground arith

  abbrev otherwise : List ThreadCandidate → Option String → Choice
  otherwise os active = fork_or_create policy (head? os) (find_active active os) active generated

  choose-automatic :
      (os : List ThreadCandidate) (active : Option String)
      → policy.manual_only ≡ false
      → choose policy os active generated ≡ attach_or policy (head? os) (otherwise os active)
  unfolding choose
  choose-automatic os active e = rw e

  pub choose-manual :
      (os : List ThreadCandidate) (active : Option String)
      → policy.manual_only ≡ true
      → choose policy os active generated
        ≡ create generated (score_of (head? os)) RationaleCode.manual_policy
  unfolding choose
  choose-manual os active e = rw e

  -- The branch on the best candidate leaves the rest of the chain, or attaches to it.
  attach_or-cases :
      (best : Option ThreadCandidate) (other : Choice)
      → (attach_or policy best other ≡ other)
        ⊎ ((c : ThreadCandidate) × (best ≡ some c)
            × (policy.attach_threshold ≤ c.score)
            × (attach_or policy best other ≡ record {
              decision = RoutingAction.attach_existing;
              thread_id = c.thread_id;
              source_thread_id = none;
              confidence = c.score;
              rationale = RationaleCode.high_confidence_match;
            }))
  unfolding attach_or
  attach_or-cases none other = inl refl
  attach_or-cases (some c) other = elim (Bool-cases (leb policy.attach_threshold c.score)) [
    | inl reach ↦ inr (c, refl, ground arith, rw reach)
    | inr low ↦ inl (rw low)
  ]

  pub choose-attach :
      (os : List ThreadCandidate) (active : Option String)
      → (choose policy os active generated).decision ≡ RoutingAction.attach_existing
      → (c : ThreadCandidate) × (policy.manual_only ≡ false)
        × (head? os ≡ some c)
        × (policy.attach_threshold ≤ c.score)
        × ((choose policy os active generated).thread_id ≡ c.thread_id)
        × ((choose policy os active generated).confidence ≡ c.score)
  choose-attach os active h = elim (Bool-cases policy.manual_only) [
    | inl e ↦ absurd (unfold create in cc (choose-manual os active e, h))
    | inr e ↦ elim (attach_or-cases (head? os) (otherwise os active)) [
      | inl same ↦ absurd (
          fork_or_create-not_attach (head? os) (find_active active os) active
            (ap (λ (x : Choice). x.decision) (sym (choose-automatic os active e ∙ same)) ∙ h))
      | inr (c, best, reach, same) ↦
          let eq = choose-automatic os active e ∙ same in
          (
            c,
            e,
            best,
            reach,
            ap (λ (x : Choice). x.thread_id) eq,
            ap (λ (x : Choice). x.confidence) eq,
          )
    ]
  ]

  pub choose-attach_of :
      (os : List ThreadCandidate) (active : Option String) (c : ThreadCandidate)
      → policy.manual_only ≡ false
      → head? os ≡ some c
      → policy.attach_threshold ≤ c.score
      → (choose policy os active generated).decision ≡ RoutingAction.attach_existing
  choose-attach_of os active c e h le =
      ap (λ (x : Choice). x.decision) (choose-automatic os active e)
      ∙ rw h (unfold attach_or in ground arith)

  fork_or_create-source :
      (best found : Option ThreadCandidate) (active : Option String) (t : String)
      → (fork_or_create policy best found active generated).source_thread_id ≡ some t
      → ((fork_or_create policy best found active generated).decision ≡ RoutingAction.fork_from)
        × (active ≡ some t)
        × (t ≢ "")
        × (drifted found policy.fork_threshold ≡ true)
  unfolding fork_or_create
  fork_or_create-source best found none t h = cc
  fork_or_create-source best found (some a) t h =
      elim (Bool-cases (not (str_eq a "") && drifted found policy.fork_threshold)) [
        | inl e ↦
            let same : a ≡ t = ground arith in
            (rw e, ap some same, rw (← same) (ne_of_test a "" (ground arith)), ground arith)
        | inr e ↦ absurd (ground arith)
      ]

  pub choose-source :
      (os : List ThreadCandidate) (active : Option String) (t : String)
      → (choose policy os active generated).source_thread_id ≡ some t
      → ((choose policy os active generated).decision ≡ RoutingAction.fork_from)
        × (active ≡ some t)
        × (t ≢ "")
        × (drifted (find_active active os) policy.fork_threshold ≡ true)
  choose-source os active t h = elim (Bool-cases policy.manual_only) [
    | inl e ↦ absurd (unfold create in cc (choose-manual os active e, h))
    | inr e ↦ elim (attach_or-cases (head? os) (otherwise os active)) [
      | inl same ↦
          let eq = choose-automatic os active e ∙ same in
          rw eq (
            fork_or_create-source (head? os) (find_active active os) active t
              (ap (λ (x : Choice). x.source_thread_id) (sym eq) ∙ h))
      | inr (c, best, reach, same) ↦
          absurd
            (cc (ap (λ (x : Choice). x.source_thread_id) (choose-automatic os active e ∙ same), h))
    ]
  ]

  pub choose-not_ambiguous :
      (os : List ThreadCandidate) (active : Option String)
      → (choose policy os active generated).rationale ≢ RationaleCode.ambiguous_attach
  unfolding choose attach_or fork_or_create
  choose-not_ambiguous [] none h = ground arith
  choose-not_ambiguous [] (some t) h = ground arith
  choose-not_ambiguous (c ∷ os) none h = ground arith
  choose-not_ambiguous (c ∷ os) (some t) h = ground arith
