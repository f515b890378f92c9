-- ===== src/Daemon/Scheduler/Loaded.antt =====
-- Which domains `_load_domains` of src/lumina/daemon/scheduler.py gives a run, apart from its steps.
use mathlib.Core.List.{Memᴰ}
use lumina_framework.Base.{
  String, true, false, Option, none, some, List, [], ◌∷◌, Result, ok, err, ◌≡◌, refl, sym,
  Bool-cases, inl, inr, ok-injective, ok-ne-err,
}
use lumina_framework.Base.Membership.{Memᴰ-of_elem, elem_of_Memᴰ}
use lumina_framework.Base.Select.{filter}
use lumina_framework.Daemon.Scheduler.{Domain, Env, elem_option}
use lumina_framework.Daemon.Scheduler.Batch.{selected_domains, domains_or, loaded, load_domains}

listed_id :
    (o : Option String) (ids : List String)
    → elem_option o ids ≡ true
    → (id : String) × (o ≡ some id) × Memᴰ id ids
unfolding elem_option
listed_id none ids h = cc
listed_id (some id) ids h = (id, refl, Memᴰ-of_elem id ids h)

unlisted_id :
    (o : Option String) (ids : List String)
    → elem_option o ids ≡ false
    → (id : String) → o ≡ some id
    → ¬ Memᴰ id ids
unfolding elem_option
unlisted_id o ids h id e m = let found = elem_of_Memᴰ id ids m in let refused = rw e at h in cc

module _ {J : Type 0} where
  -- The domains whose id is listed, in order.
  pub data AreChosen (ids : List String) : List (Domain J) → List (Domain J) → Type 0 where
    no_domain : AreChosen ids [] []
    taken :
        {d : Domain J} {ds es : List (Domain J)} (id : String)
        → d.domain_id ≡ some id
        → Memᴰ id ids
        → AreChosen ids ds es
        → AreChosen ids (d ∷ ds) (d ∷ es)
    left_out :
        {d : Domain J} {ds es : List (Domain J)}
        → ((id : String) → d.domain_id ≡ some id → ¬ Memᴰ id ids)
        → AreChosen ids ds es
        → AreChosen ids (d ∷ ds) es

  -- The loader's domains that a run is about: all of them where it names none.
  pub data AreMeant : Option (List String) → List (Domain J) → List (Domain J) → Type 0 where
    unnamed : (ds : List (Domain J)) → AreMeant none ds ds
    empty_list : (ds : List (Domain J)) → AreMeant (some []) ds ds
    named :
        (id : String) (ids : List String) {ds es : List (Domain J)}
        → AreChosen (id ∷ ids) ds es
        → AreMeant (some (id ∷ ids)) ds es

  -- The domains of a run: the default one stands in where there is no loader or none of its domains is meant.
  pub data AreLoaded (env : Env J) (ids : Option (List String)) : List (Domain J) → Type 0 where
    no_loader :
        (d : Domain J)
        → env.loader ≡ none
        → d.domain_id ≡ some "default"
        → d.physics ≡ some env.empty
        → AreLoaded env ids (d ∷ [])
    none_meant :
        (d : Domain J) (ds : List (Domain J))
        → env.loader ≡ some (ok ds)
        → AreMeant ids ds []
        → d.domain_id ≡ some "default"
        → d.physics ≡ some env.empty
        → AreLoaded env ids (d ∷ [])
    meant :
        (d : Domain J) (ds es : List (Domain J))
        → env.loader ≡ some (ok ds)
        → AreMeant ids ds (d ∷ es)
        → AreLoaded env ids (d ∷ es)

  filter-AreChosen :
      (ids : List String) (ds : List (Domain J))
      → AreChosen ids ds (filter (λ (d : Domain J). elem_option d.domain_id ids) ds)
  unfolding filter
  filter-AreChosen ids [] = no_domain
  filter-AreChosen ids (d ∷ ds) = elim (Bool-cases (elem_option d.domain_id ids)) [
    | inl t ↦
        let (id, e, m) = listed_id d.domain_id ids t in
        rw t (taken id e m (filter-AreChosen ids ds))
    | inr n ↦ rw n (left_out (unlisted_id d.domain_id ids n) (filter-AreChosen ids ds))
  ]

  selected-AreMeant :
      (ids : Option (List String)) (ds : List (Domain J))
      → AreMeant ids ds (selected_domains ids ds)
  unfolding selected_domains
  selected-AreMeant none ds = unnamed ds
  selected-AreMeant (some []) ds = empty_list ds
  selected-AreMeant (some (id ∷ ids)) ds = named id ids (filter-AreChosen (id ∷ ids) ds)

  domains_or-AreLoaded :
      (env : Env J) (ids : Option (List String)) (ds es : List (Domain J))
      → env.loader ≡ some (ok ds)
      → AreMeant ids ds es
      → AreLoaded env ids (domains_or env es)
  unfolding domains_or
  domains_or-AreLoaded env ids ds [] e m = none_meant _ ds e m refl refl
  domains_or-AreLoaded env ids ds (d ∷ es) e m = meant d ds es e m

  loaded-AreLoaded :
      (env : Env J) (ids : Option (List String)) (loader : Option (Result String (List (Domain J))))
      {domains : List (Domain J)}
      → env.loader ≡ loader
      → loaded env ids loader ≡ ok domains
      → AreLoaded env ids domains
  unfolding loaded
  loaded-AreLoaded env ids none e h = rw (sym (ok-injective h)) (no_loader _ e refl refl)
  loaded-AreLoaded env ids (some (err x)) e h = absurd (ok-ne-err (sym h))
  loaded-AreLoaded env ids (some (ok ds)) e h =
      rw (sym (ok-injective h)) (domains_or-AreLoaded env ids ds _ e (selected-AreMeant ids ds))

  pub load_domains-AreLoaded :
      (env : Env J) (ids : Option (List String)) {domains : List (Domain J)}
      → load_domains env ids ≡ ok domains
      → AreLoaded env ids domains
  unfolding load_domains
  load_domains-AreLoaded env ids h = loaded-AreLoaded env ids env.loader refl h
