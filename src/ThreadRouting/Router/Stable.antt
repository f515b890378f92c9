-- ===== src/ThreadRouting/Router/Stable.antt =====
-- The order in which candidates arrive does not matter to src/lumina/thread_routing/router.py.
use mathlib.Core.List.{Permᴰ}
use lumina_framework.Base.{String, true, Option, List, ◌≡◌, sym, ap, ◌∙◌, arith, All}
use lumina_framework.Base.Order.{text_leb_antisymm}
use lumina_framework.Base.Sorting.{sort, sort-Permᴰ}
use lumina_framework.ThreadRouting.Router.{
  ThreadRoutingPolicy, ThreadCandidate, before, ordered_candidates, decided, decide_thread_route,
}
use lumina_framework.ThreadRouting.Router.Ordering.{before_order}

before_antisymm :
    (a b : ThreadCandidate) → before a b ≡ true → before b a ≡ true → a.thread_id ≡ b.thread_id
unfolding before
before_antisymm a b p q = text_leb_antisymm a.thread_id b.thread_id (ground arith) (ground arith)

-- The candidates are entries of a table: one candidate for a thread.
abbrev pub IsTabled : (String → ThreadCandidate) → ThreadCandidate → Type 0
IsTabled table c = c ≡ table c.thread_id

same_entry :
    (table : String → ThreadCandidate) (a b : ThreadCandidate)
    → IsTabled table a
    → IsTabled table b
    → before a b ≡ true
    → before b a ≡ true
    → a ≡ b
same_entry table a b p q h k = p ∙ ap table (before_antisymm a b h k) ∙ sym q

-- Two lists with the same candidates, of which no thread has two different ones, lead to the same
-- decision or error, whatever the order of the lists.
pub decide_thread_route-Permᴰ :
    (table : String → ThreadCandidate) {cs ds : List ThreadCandidate} (policy : ThreadRoutingPolicy)
    (actor : String) (active decision_id new_thread_id : Option String) (uuid thread_uuid : String)
    → Permᴰ cs ds
    → All (IsTabled table) cs
    → decide_thread_route cs policy actor active decision_id new_thread_id uuid thread_uuid
      ≡ decide_thread_route ds policy actor active decision_id new_thread_id uuid thread_uuid
unfolding decide_thread_route decided ordered_candidates
decide_thread_route-Permᴰ table {cs} {ds} policy actor active decision_id new_thread_id uuid
      thread_uuid p tabled =
    let same : sort before cs ≡ sort before ds =
      sort-Permᴰ before before_order (IsTabled table) (same_entry table) p tabled in
    rw same
