-- ===== src/Core/Ttl.antt =====
-- src/lumina/core/ttl_manager.py: the hierarchical time-to-live manager.
-- Times and TTLs are numbers of clock ticks (the clock is monotonic), and `now` is what the clock
-- returns at a call. Metadata values are of any type. A truncated `now - last_touched` is never
-- above a TTL, as a negative age is not.
pub mod Prune
pub mod Alive
mod Examples
use lumina_framework.Base.{
  get_or, ℕ, ◌-◌, String, Bool, true, false, not, Option, none, some, List, [], ◌∷◌, Result, ok,
  err, ◌>>=◌, str_eq, if◌then◌else◌, ltb, leb, length,
}
use lumina_framework.Base.Dict.{Dict, get, put}

pub data Tier : Type 0 where
  module_tier domain_tier system_tier : Tier

pub data Error : Type 0 where
  value_error key_error : String → Error

-- A tier is given as a member of the enumeration or as its text.
pub data TierName : Type 0 where
  member : Tier → TierName
  text : String → TierName

-- `Tier(tier)`
unfoldable pub tier_of : TierName → Result Error Tier
tier_of (member t) = ok t
tier_of (text s) =
    if str_eq s "module"
    then ok module_tier
    else if str_eq s "domain"
    then ok domain_tier
    else if str_eq s "system"
    then ok system_tier
    else err (value_error s)

pub record Ttls : Type 0 where
  pub module_ttl : ℕ
  pub domain_ttl : ℕ
  pub system_ttl : ℕ

-- A configuration: `none` where the tier, or the key of the policy, is missing.
pub record TtlConfig : Type 0 where
  pub module_ttl : Option ℕ
  pub domain_ttl : Option ℕ
  pub system_ttl : Option ℕ

abbrev pub tier_defaults : Ttls
tier_defaults = record { module_ttl = 900; domain_ttl = 14400; system_ttl = 86400 }

unfoldable pub ttl_of : Ttls → Tier → ℕ
ttl_of t module_tier = t.module_ttl
ttl_of t domain_tier = t.domain_ttl
ttl_of t system_tier = t.system_ttl

pub record TtlEntry (M : Type 0) : Type 0 where
  pub tier : Tier
  pub key : String
  pub last_touched : ℕ
  pub metadata : Dict M

pub record TtlManager (M : Type 0) : Type 0 where
  pub ttls : Ttls
  pub entries : Dict (TtlEntry M)

module _ {M : Type 0} where
  -- `del d[key]`
  unfoldable pub delete : String → Dict (TtlEntry M) → Result Error (Dict (TtlEntry M))
  delete k [] = err (key_error k)
  delete k ((j, e) ∷ d) =
      let rest = delete k d in if str_eq j k then ok d else (rest >>= λ d'. ok ((j, e) ∷ d'))

  -- The constructor.
  unfoldable pub init : Option TtlConfig → TtlManager M
  init none = record { ttls = tier_defaults; entries = [] }
  init (some c) = record {
    ttls = record {
      module_ttl = get_or c.module_ttl tier_defaults.module_ttl;
      domain_ttl = get_or c.domain_ttl tier_defaults.domain_ttl;
      system_ttl = get_or c.system_ttl tier_defaults.system_ttl;
    };
    entries = [];
  }

  -- The policy's three keys are those of the configuration.
  unfoldable pub from_temporal_policy : Option TtlConfig → TtlManager M
  unfolding init
  from_temporal_policy none =
      init (some (record { module_ttl = none; domain_ttl = none; system_ttl = none }))
  from_temporal_policy (some policy) = init (some policy)

  unfoldable pub register :
      ℕ → TtlManager M → TierName → String → Dict M → Result Error (TtlManager M × TtlEntry M)
  unfolding tier_of put
  register now m name key metadata = do
    tier ← tier_of name
    let entry : TtlEntry M = record {
      tier = tier;
      key = key;
      last_touched = now;
      metadata = metadata;
    }
    ok (record m { entries = put key entry m.entries }, entry)

  unfoldable pub touch :
      ℕ → TtlManager M → TierName → String → Result Error (TtlManager M × TtlEntry M)
  unfolding get register put
  touch now m name key = elim (get key m.entries) [
    | none ↦ register now m name key []
    | some entry ↦ ok (
      record m { entries = put key (record entry { last_touched = now }) m.entries },
      record entry { last_touched = now },
    )
  ]

  -- `(now - entry.last_touched) > ttl`
  unfoldable pub is_expired : ℕ → Ttls → TtlEntry M → Bool
  unfolding ttl_of
  is_expired now ttls e = ltb (ttl_of ttls e.tier) (now - e.last_touched)

  -- The first loop of `prune`.
  unfoldable pub expired : ℕ → Ttls → Dict (TtlEntry M) → List (TtlEntry M)
  expired now ttls [] = []
  expired now ttls ((k, e) ∷ d) =
      let rest = expired now ttls d in if is_expired now ttls e then e ∷ rest else rest

  -- The second loop of `prune`.
  unfoldable pub delete_all :
      List (TtlEntry M) → Dict (TtlEntry M) → Result Error (Dict (TtlEntry M))
  unfolding delete
  delete_all [] d = ok d
  delete_all (e ∷ es) d = do d' ← delete e.key d; delete_all es d'

  unfoldable pub prune : ℕ → TtlManager M → Result Error (TtlManager M × List (TtlEntry M))
  unfolding expired delete_all
  prune now m = do
    entries ← delete_all (expired now m.ttls m.entries) m.entries
    ok (record m { entries = entries }, expired now m.ttls m.entries)

  unfoldable pub is_alive : ℕ → TtlManager M → String → Bool
  unfolding get ttl_of
  is_alive now m key = elim (get key m.entries) [
    | none ↦ false
    | some e ↦ leb (now - e.last_touched) (ttl_of m.ttls e.tier)
  ]

  unfoldable pub size : TtlManager M → ℕ
  size m = length m.entries

  unfoldable pub get_ttl : TtlManager M → TierName → Result Error ℕ
  unfolding tier_of ttl_of
  get_ttl m name = do tier ← tier_of name; ok (ttl_of m.ttls tier)
