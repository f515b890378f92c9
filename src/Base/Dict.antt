-- ===== src/Base/Dict.antt =====
-- Python's `dict` with text keys, as the list of its items in insertion order.
use lumina_framework.Base.{
  String, ◌≡◌, refl, Option, none, some, List, [], ◌∷◌, arith, eq_iff, str_eq, if◌then◌else◌,
}

abbrev pub Dict {ℓ} : Type ℓ → Type ℓ
Dict V = List (String × V)

module _ {ℓ} {V : Type ℓ} where
  -- `d.get(k)`
  unfoldable pub get : String → Dict V → Option V
  get k [] = none
  get k ((j, v) ∷ d) = if str_eq j k then some v else get k d

  -- `d[k] = v`: an old key keeps its place, a new one goes last.
  unfoldable pub put : String → V → Dict V → Dict V
  put k v [] = (k, v) ∷ []
  put k v ((j, w) ∷ d) = let rest = put k v d in if str_eq j k then (j, v) ∷ d else (j, w) ∷ rest

  -- `d.pop(k, None)`: a dict has a key once, so the first item of the key is the only one.
  unfoldable pub remove : String → Dict V → Dict V
  remove k [] = []
  remove k ((j, w) ∷ d) = let rest = remove k d in if str_eq j k then d else (j, w) ∷ rest

  -- `{**d, **u}`
  unfoldable pub merge : Dict V → Dict V → Dict V
  unfolding put
  merge d [] = d
  merge d ((k, v) ∷ u) = merge (put k v d) u

  -- Every key stands once.
  abbrev pub NodupKeys : Dict V → Type ℓ
  NodupKeys [] = Unit
  NodupKeys ((k, _) ∷ d) = (get k d ≡ none) × NodupKeys d

  pub get-put :
      (k j : String) (v : V) (d : Dict V)
      → get j (put k v d) ≡ (if str_eq k j then some v else get j d)
  unfolding get put
  get-put k j v [] = refl
  get-put k j v ((i, w) ∷ d) = ground (arith, eq_iff k j, eq_iff i k, eq_iff i j, get-put k j v d)

  pub get-remove :
      (k j : String) (d : Dict V)
      → NodupKeys d
      → get j (remove k d) ≡ (if str_eq k j then none else get j d)
  unfolding get remove
  get-remove k j [] h = ground arith
  get-remove k j ((i, w) ∷ d) h =
      ground (arith, eq_iff k j, eq_iff i k, eq_iff i j, get-remove k j d h.1, h.0)

  pub put-NodupKeys : (k : String) (v : V) (d : Dict V) → NodupKeys d → NodupKeys (put k v d)
  unfolding get put
  put-NodupKeys k v [] h = (refl, tt)
  put-NodupKeys k v ((i, w) ∷ d) h =
      ground (arith, eq_iff i k, eq_iff k i, get-put k i v d, put-NodupKeys k v d h.1)

  pub remove-NodupKeys : (k : String) (d : Dict V) → NodupKeys d → NodupKeys (remove k d)
  unfolding get remove
  remove-NodupKeys k [] h = tt
  remove-NodupKeys k ((i, w) ∷ d) h =
      ground (arith, eq_iff i k, eq_iff k i, get-remove k i d h.1, remove-NodupKeys k d h.1)
