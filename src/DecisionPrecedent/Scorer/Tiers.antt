-- ===== src/DecisionPrecedent/Scorer/Tiers.antt =====
-- The tiers that src/lumina/decision_precedent/scorer.py decides.
use lumina_framework.Base.{
  ℕ, ◌≤◌, ◌<◌, String, true, false, Option, none, some, List, [], ◌∷◌, ok, err, ◌>>=◌, elem, ◌≡◌,
  ◌≢◌, ◌↔◌, ◌⊎◌, inl, inr, refl, arith, strip, test_of_ne, test_of_eq,
}
use lumina_framework.DecisionPrecedent.Policy.{DecisionPrecedentPolicy}
use lumina_framework.DecisionPrecedent.Scorer.{
  suggest_only, mandatory_escalation, PrecedentCandidate, PrecedentMatch, DecisionConfidenceScore,
  decide_tier, scored, first, final_score_of, ordered_matches, score_decision_precedent,
  require_identifier, Moment, evaluated, id_or, value_error,
}

module _ (policy : DecisionPrecedentPolicy) (risk : String) where
  decide_tier_suggests :
      (best : Option PrecedentMatch) (score : ℕ)
      → ((decide_tier policy risk best score).0 ≡ suggest_only) ↔ (
          (elem risk policy.high_risk_classes ≡ false)
          × (best ≢ none)
          × (policy.suggest_threshold ≤ score)
          × (elem risk policy.confirmation_risk_classes ≡ false))
  unfolding decide_tier
  decide_tier_suggests none score = ground arith
  decide_tier_suggests (some m) score = ground arith

  decide_tier_escalates :
      (best : Option PrecedentMatch) (score : ℕ)
      → policy.confirmation_threshold ≤ policy.suggest_threshold
      → ((decide_tier policy risk best score).0 ≡ mandatory_escalation) ↔ (
          (elem risk policy.high_risk_classes ≡ true)
          ⊎ ((best ≡ none) ⊎ (score < policy.confirmation_threshold)))
  unfolding decide_tier
  decide_tier_escalates none score h = ground arith
  decide_tier_escalates (some m) score h = ground arith

first-none : (ms : List PrecedentMatch) → (first ms ≡ none) ↔ (ms ≡ [])
first-none [] = (λ _. refl, λ _. refl)
first-none (m ∷ ms) = (λ h. cc, λ h. cc)

module _ (candidates : List PrecedentCandidate) (policy : DecisionPrecedentPolicy)
    (actor risk : String) (now : ℕ) (record_id : String) where
  abbrev made : DecisionConfidenceScore
  made = scored candidates policy actor risk now record_id

  -- A decision is only suggested exactly if its risk class is neither high nor one that asks for
  -- confirmation, some precedent matches, and the final score reaches the suggest threshold.
  pub scored_suggests : (made.tier ≡ suggest_only) ↔ (
      (elem risk policy.high_risk_classes ≡ false)
      × (made.precedent_matches ≢ [])
      × (policy.suggest_threshold ≤ made.final_score)
      × (elem risk policy.confirmation_risk_classes ≡ false))
  unfolding scored
  scored_suggests =
      let ms = ordered_matches candidates policy now in
      let (f, g) = decide_tier_suggests policy risk (first ms) (final_score_of policy (first ms)) in
      let (p, q) = first-none ms in
      (
        λ h. let (a, b, c, d) = f h in (a, λ e. b (q e), c, d),
        λ h. g (h.0, λ e. h.1 (p e), h.2, h.3),
      )

  -- Under a policy whose confirmation threshold is at most its suggest threshold, a decision is escalated
  -- exactly if its risk class is high, no precedent matches, or the final score is below the
  -- confirmation threshold.
  pub scored_escalates :
      policy.confirmation_threshold ≤ policy.suggest_threshold
      → (made.tier ≡ mandatory_escalation) ↔ (
          (elem risk policy.high_risk_classes ≡ true)
          ⊎ ((made.precedent_matches ≡ []) ⊎ (made.final_score < policy.confirmation_threshold)))
  unfolding scored
  scored_escalates h =
      let ms = ordered_matches candidates policy now in
      let (f, g) =
        decide_tier_escalates policy risk (first ms) (final_score_of policy (first ms)) h in
      let (p, q) = first-none ms in
      (
        λ e. elim (f e) [
          | inl a ↦ inl a
          | inr (inl a) ↦ inr (inl (p a))
          | inr (inr a) ↦ inr (inr a)
        ],
        λ e. elim e [
          | inl a ↦ g (inl a)
          | inr (inl a) ↦ g (inr (inl (q a)))
          | inr (inr a) ↦ g (inr (inr a))
        ],
      )

-- Scoring raises where the actor or the risk class is blank; with both named it raises where the given
-- instant has no timezone, and otherwise returns the score of the stripped names at the given instant, or
-- at the clock's where none is given.
pub score_total :
    (candidates : List PrecedentCandidate) (policy : DecisionPrecedentPolicy) (actor risk : String)
    (at : Option Moment) (record_id : Option String) (clock : ℕ) (uuid : String)
    → ((strip actor ≡ "")
        → score_decision_precedent candidates policy actor risk at record_id clock uuid
          ≡ err (value_error "decision confidence requires actor_id"))
      × ((strip actor ≢ "")
          → (strip risk ≡ "")
          → score_decision_precedent candidates policy actor risk at record_id clock uuid
            ≡ err (value_error "decision confidence requires risk_class"))
      × ((strip actor ≢ "")
          → (strip risk ≢ "")
          → score_decision_precedent candidates policy actor risk at record_id clock uuid ≡ (
              evaluated clock at >>= (λ now.
                ok (
                  scored candidates policy (strip actor) (strip risk) now (id_or record_id uuid)))))
unfolding score_decision_precedent require_identifier
score_total candidates policy actor risk at record_id clock uuid = (
  λ e. rw (test_of_eq (strip actor) "" e),
  λ n e. rw (test_of_ne (strip actor) "" n, test_of_eq (strip risk) "" e),
  λ n m. rw (test_of_ne (strip actor) "" n, test_of_ne (strip risk) "" m),
)
