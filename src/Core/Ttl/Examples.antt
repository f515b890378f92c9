-- ===== src/Core/Ttl/Examples.antt =====
-- Tests of the model of src/lumina/core/ttl_manager.py, and its theorems at a concrete manager.
use lumina_framework.Base.{
  ℕ, ◌-◌, String, true, none, some, [], ◌∷◌, ok, ◌≡◌, refl, leb, str_eq, if◌then◌else◌,
}
use lumina_framework.Base.Dict.{get}
use lumina_framework.Core.Ttl.{
  TtlManager, TtlEntry, module_tier, domain_tier, text, touch, prune, is_alive, is_expired, expired,
  ttl_of, tier_defaults,
}
use lumina_framework.Core.Ttl.Prune.{IsValid, prune_exact}
use lumina_framework.Core.Ttl.Alive.{touch_alive}

abbrev steps : TtlEntry ℕ
steps = record { tier = module_tier; key = "steps"; last_touched = 100; metadata = [] }

abbrev glossary : TtlEntry ℕ
glossary = record { tier = domain_tier; key = "glossary"; last_touched = 50; metadata = [] }

abbrev two : TtlManager ℕ
two = record { ttls = tier_defaults; entries = ("steps", steps) ∷ ("glossary", glossary) ∷ [] }

abbrev touched : TtlManager ℕ
touched = record two {
  entries = ("steps", record steps { last_touched = 900 }) ∷ ("glossary", glossary) ∷ [];
}

prune_test : prune 1001 two ≡ ok (record two { entries = ("glossary", glossary) ∷ [] }, steps ∷ [])
unfolding prune is_expired
prune_test = refl

touch_test :
    touch 900 two (text "system") "steps" ≡ ok (touched, record steps { last_touched = 900 })
unfolding touch
touch_test = refl

two-IsValid : IsValid two
unfolding get
two-IsValid = record { nodup = (refl, (refl, tt)); keyed = (refl, (refl, tt)) }

prune_exact_example :
    (m' : TtlManager ℕ) × (prune 1001 two ≡ ok (m', expired 1001 tier_defaults two.entries))
    × IsValid m'
    × (m'.ttls ≡ tier_defaults)
    × ((k : String) → get k m'.entries ≡ (if is_alive 1001 two k then get k two.entries else none))
prune_exact_example = prune_exact 1001 two two-IsValid

steps_alive : is_alive 1000 two "steps" ≡ true
unfolding is_alive
steps_alive = refl

touch_alive_example :
    IsValid touched
    × (touched.ttls ≡ two.ttls)
    × ((j : String)
        → get j touched.entries ≡ (
            if str_eq "steps" j
            then some (record steps { last_touched = 900 })
            else get j two.entries))
    × ((later : ℕ)
        → is_alive later touched "steps" ≡ leb (later - 900) (ttl_of tier_defaults module_tier))
    × ((old : TtlEntry ℕ) → get "steps" two.entries ≡ some old → module_tier ≡ old.tier)
touch_alive_example = touch_alive 900 two (text "system") "steps" two-IsValid touch_test
