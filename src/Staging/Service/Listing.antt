-- ===== src/Staging/Service/Listing.antt =====
-- What `list_staged` of src/lumina/staging/staging_service.py lists.
use lumina_framework.Base.{String, true, Option, [], ◌∷◌, All, ◌≡◌, ◌↔◌, refl, inl, inr, Bool-cases}
use mathlib.Core.Bool.{false≢true}
use lumina_framework.Base.Dict.{Dict}
use lumina_framework.Base.Sorting.{sort, All-sort, All-of-sort}
use lumina_framework.Staging.Service.{StagedFile, Area, wanted, kept, by_name, list_staged}

module _ {J : Type 0} (P : StagedFile J → Type 0) (actor : Option String) where
  -- What the filter lets through has the property.
  abbrev Holds : String × StagedFile J → Type 0
  Holds ke = wanted actor ke.1 ≡ true → P ke.1

  kept-All : (d : Dict (StagedFile J)) → All P (kept actor d) ↔ All Holds d
  unfolding kept
  kept-All [] = (λ _. tt, λ _. tt)
  kept-All ((k, e) ∷ d) =
      let (f, g) = kept-All d in
      elim (Bool-cases (wanted actor e)) [
        | inl t ↦ rw t (λ h. (λ _. h.0, f h.1), λ h. (h.0 refl, g h.1))
        | inr t ↦ rw t (λ h. (λ u. absurd (false≢true u), f h), λ h. g h.1)
      ]

  -- A property holds of every listed envelope exactly if it holds of every stored one that passes the
  -- filter by its actor.
  pub list_staged-All : (a : Area J) → All P (list_staged actor a) ↔ All Holds a.envelopes
  unfolding list_staged
  list_staged-All a =
      let (f, g) = kept-All (sort by_name a.envelopes) in
      (
        λ h. All-of-sort by_name Holds a.envelopes (f h),
        λ h. g (All-sort by_name Holds a.envelopes h),
      )
