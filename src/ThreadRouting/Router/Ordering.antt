-- ===== src/ThreadRouting/Router/Ordering.antt =====
-- The order of the candidates in src/lumina/thread_routing/router.py: the first is a best one.
use mathlib.Core.Path.{subst}
use mathlib.Core.List.{Memᴰ}
use lumina_framework.Base.{
  ℕ, ◌≤◌, ◌<◌, zero, suc, true, false, none, some, List, [], ◌∷◌, take, ◌≡◌, refl, ap, ◌∙◌, arith,
  All, All-mem, All-map, All-Memᴰ,
}
use lumina_framework.Base.Order.{text_leb_total, text_leb_trans}
use lumina_framework.Base.Sorting.{
  sort, IsTotalOrder, IsSorted, sort-IsSorted, All-sort, All-of-sort,
}
use lumina_framework.ThreadRouting.Router.{ThreadCandidate, before, ordered_candidates, head?}

pub before_total : (a b : ThreadCandidate) → before a b ≡ false → before b a ≡ true
unfolding before
before_total a b h = ground (arith, text_leb_total a.thread_id b.thread_id)

pub before_trans :
    (a b c : ThreadCandidate) → before a b ≡ true → before b c ≡ true → before a c ≡ true
unfolding before
before_trans a b c p q = ground (arith, text_leb_trans a.thread_id b.thread_id c.thread_id)

abbrev pub before_order : IsTotalOrder before
before_order = record { total = before_total; trans = before_trans }

before-score : (a b : ThreadCandidate) → before a b ≡ true → b.score ≤ a.score
unfolding before
before-score a b h = ground arith

-- The candidate with the highest score, of those that were given.
pub record IsBest (cs : List ThreadCandidate) (best : ThreadCandidate) : Type 0 where
  pub member : Memᴰ best cs
  pub highest : All (λ (c : ThreadCandidate). c.score ≤ best.score) cs

sorted_head :
    (cs ds : List ThreadCandidate) (c : ThreadCandidate) → sort before cs ≡ c ∷ ds → IsBest cs c
sorted_head cs ds c e = record {
  member =
      (subst (All (λ (x : ThreadCandidate). Memᴰ x cs)) e
        (All-sort before (λ x. Memᴰ x cs) cs (All-Memᴰ cs))).0;
  highest =
      let s = subst (IsSorted before) e (sort-IsSorted before before_order cs) in
      All-of-sort before (λ (x : ThreadCandidate). x.score ≤ c.score) cs
        (rw e (
          omega arith,
          All-map (λ (x : ThreadCandidate). x.score ≤ c.score) ds (λ x. before-score c x) s.0,
        ));
}

-- With room for one candidate, the first of the ordered candidates is the best one.
pub ordered_head :
    (cs : List ThreadCandidate) (limit : ℕ) (c : ThreadCandidate)
    → head? (ordered_candidates cs limit) ≡ some c
    → IsBest cs c
unfolding ordered_candidates
ordered_head cs limit c h = go (sort before cs) limit refl h
  where
    go :
        (ds : List ThreadCandidate) (n : ℕ)
        → sort before cs ≡ ds
        → head? (take n ds) ≡ some c
        → IsBest cs c
    go ds zero e k = cc
    go [] (suc n) e k = cc
    go (d ∷ ds) (suc n) e k = let q : d ≡ c = cc in sorted_head cs ds c (e ∙ ap (λ x. x ∷ ds) q)

pub ordered_none :
    (cs : List ThreadCandidate) (limit : ℕ)
    → 0 < limit
    → head? (ordered_candidates cs limit) ≡ none
    → (c : ThreadCandidate) → ¬ Memᴰ c cs
unfolding ordered_candidates
ordered_none cs limit p h c m = go (sort before cs) limit p refl h
  where
    go :
        (ds : List ThreadCandidate) (n : ℕ)
        → 0 < n
        → sort before cs ≡ ds
        → head? (take n ds) ≡ none
        → ⊥
    go ds zero q e k = elim q [ ]
    go [] (suc n) q e k = All-mem (λ _. ⊥) (All-of-sort before (λ _. ⊥) cs (rw e tt)) m
    go (d ∷ ds) (suc n) q e k = cc
