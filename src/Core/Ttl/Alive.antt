-- ===== src/Core/Ttl/Alive.antt =====
-- How registering and touching keep an entry of src/lumina/core/ttl_manager.py alive.
use mathlib.Core.Path.{subst}
use lumina_framework.Base.{
  ℕ, ◌-◌, ◌≤◌, String, true, none, some, [], ◌∷◌, ok, err, bind-inversion, str_eq, if◌then◌else◌,
  leb, ◌≡◌, refl, sym, ap, ◌∙◌, arith, eq_iff, eq_refl, Option-cases, inl, inr, ok-injective,
  ok-ne-err, ◌↔◌,
}
use lumina_framework.Base.Dict.{Dict, get, put, get-put, put-NodupKeys}
use lumina_framework.Core.Ttl.{
  TierName, Error, TtlEntry, TtlManager, ttl_of, register, touch, is_alive, tier_of,
}
use lumina_framework.Core.Ttl.Prune.{IsKeyed, IsValid}

module _ {M : Type 0} where
  -- An entry that is alive at a time was alive at every earlier time: only `register` and `touch`
  -- bring an expired entry back.
  pub is_alive_antitone :
      (earlier later : ℕ) (m : TtlManager M) (k : String)
      → earlier ≤ later
      → is_alive later m k ≡ true
      → is_alive earlier m k ≡ true
  unfolding is_alive
  is_alive_antitone a b m k le h = elim (Option-cases (get k m.entries)) [
    | inl e ↦ absurd (ground arith)
    | inr (x, e) ↦ rw (e, is_alive) (ground arith)
  ]

  put-IsKeyed :
      (k : String) (e : TtlEntry M) (d : Dict (TtlEntry M))
      → e.key ≡ k
      → IsKeyed d
      → IsKeyed (put k e d)
  unfolding put
  put-IsKeyed k e [] p h = (p, tt)
  put-IsKeyed k e ((j, x) ∷ d) p h = ground (arith, eq_iff j k, put-IsKeyed k e d p h.1)

  get-IsKeyed :
      (k : String) (e : TtlEntry M) (d : Dict (TtlEntry M))
      → IsKeyed d
      → get k d ≡ some e
      → e.key ≡ k
  unfolding get
  get-IsKeyed k e ((j, x) ∷ d) h g = ground (arith, eq_iff j k, get-IsKeyed k e d h.1)
  get-IsKeyed k e [] h g = cc

  put-IsValid :
      (m : TtlManager M) (k : String) (e : TtlEntry M)
      → e.key ≡ k
      → IsValid m
      → IsValid (record m { entries = put k e m.entries })
  put-IsValid m k e p v = record {
    nodup = put-NodupKeys k e m.entries v.nodup;
    keyed = put-IsKeyed k e m.entries p v.keyed;
  }

  touch-missing :
      (now : ℕ) (m : TtlManager M) (name : TierName) (k : String)
      → get k m.entries ≡ none
      → touch now m name k ≡ register now m name k []
  touch-missing now m name k h = unfold touch in rw (h, touch)

  touch-found :
      (now : ℕ) (m : TtlManager M) (name : TierName) (k : String) (x : TtlEntry M)
      → get k m.entries ≡ some x
      → touch now m name k
        ≡ ok (
          record m { entries = put k (record x { last_touched = now }) m.entries },
          record x { last_touched = now },
        )
  touch-found now m name k x h = unfold touch in rw (h, touch)

  -- What `register` and `touch` store, and the entry's life after it.
  record Stored (now : ℕ) (m m' : TtlManager M) (k : String) (e : TtlEntry M) : Type 0 where
    valid : IsValid m'
    same_ttls : m'.ttls ≡ m.ttls
    key : e.key ≡ k
    fresh : e.last_touched ≡ now
    lookup : (j : String) → get j m'.entries ≡ (if str_eq k j then some e else get j m.entries)

  Stored-put :
      (now : ℕ) (m : TtlManager M) (k : String) (e : TtlEntry M)
      → e.key ≡ k
      → e.last_touched ≡ now
      → IsValid m
      → Stored now m (record m { entries = put k e m.entries }) k e
  Stored-put now m k e p q v = record {
    valid = put-IsValid m k e p v;
    same_ttls = refl;
    key = p;
    fresh = q;
    lookup = λ j. get-put k j e m.entries;
  }

  register-Stored :
      (now : ℕ) (m : TtlManager M) (name : TierName) (k : String) (metadata : Dict M)
      {m' : TtlManager M} {e : TtlEntry M}
      → IsValid m
      → register now m name k metadata ≡ ok (m', e)
      → Stored now m m' k e
  unfolding register
  register-Stored now m name k metadata {m'} {e} v h =
      let (tier, p, q) = bind-inversion (tier_of name) _ h in
      let r = ok-injective q in
      subst (λ (s : TtlManager M × TtlEntry M). Stored now m s.0 k s.1) r
        (Stored-put now m k
          (record { tier = tier; key = k; last_touched = now; metadata = metadata }) refl refl v)

  register_err :
      (now : ℕ) (m : TtlManager M) (name : TierName) (k : String) (metadata : Dict M) {x : Error}
      → register now m name k metadata ≡ err x
      → tier_of name ≡ err x
  register_err now m name k metadata h = unfold register in ground arith

  touch-Stored :
      (now : ℕ) (m : TtlManager M) (name : TierName) (k : String) {m' : TtlManager M}
      {e : TtlEntry M}
      → IsValid m
      → touch now m name k ≡ ok (m', e)
      → Stored now m m' k e
  touch-Stored now m name k {m'} {e} v h = elim (Option-cases (get k m.entries)) [
    | inl missing ↦ register-Stored now m name k [] v (sym (touch-missing now m name k missing) ∙ h)
    | inr (x, found) ↦
        subst (λ (s : TtlManager M × TtlEntry M). Stored now m s.0 k s.1)
          (ok-injective (sym (touch-found now m name k x found) ∙ h))
          (Stored-put now m k (record x { last_touched = now })
            (get-IsKeyed k x m.entries v.keyed found) refl v)
  ]

  is_alive-Stored :
      {now : ℕ} {m m' : TtlManager M} {k : String} {e : TtlEntry M}
      → Stored now m m' k e
      → (later : ℕ) → is_alive later m' k ≡ leb (later - now) (ttl_of m.ttls e.tier)
  is_alive-Stored {m'} {k} {e} s later =
      let found : get k m'.entries ≡ some e = rw (s.lookup k, eq_refl) in
      unfold is_alive in rw (found, is_alive) (rw (s.fresh, s.same_ttls))

  touch_tier :
      (now : ℕ) (m : TtlManager M) (name : TierName) (k : String) {m' : TtlManager M}
      {e : TtlEntry M} (old : TtlEntry M)
      → get k m.entries ≡ some old
      → touch now m name k ≡ ok (m', e)
      → e.tier ≡ old.tier
  touch_tier now m name k old found h = sym (
      ap (λ (s : TtlManager M × TtlEntry M). s.1.tier)
        (ok-injective (sym (touch-found now m name k old found) ∙ h)))

  -- A successful `touch` on a valid manager leaves it valid with the same TTLs and the same entries
  -- under every other key; from then on the key is alive exactly while the age since the touch is
  -- within the TTL of the returned entry's tier, which for a key that was there is its old tier.
  pub touch_alive :
      (now : ℕ) (m : TtlManager M) (name : TierName) (k : String) {m' : TtlManager M}
      {e : TtlEntry M}
      → IsValid m
      → touch now m name k ≡ ok (m', e)
      → IsValid m'
        × (m'.ttls ≡ m.ttls)
        × ((j : String) → get j m'.entries ≡ (if str_eq k j then some e else get j m.entries))
        × ((later : ℕ) → is_alive later m' k ≡ leb (later - now) (ttl_of m.ttls e.tier))
        × ((old : TtlEntry M) → get k m.entries ≡ some old → e.tier ≡ old.tier)
  touch_alive now m name k {m'} {e} v h =
      let s = touch-Stored now m name k v h in
      (
        s.valid,
        s.same_ttls,
        s.lookup,
        is_alive-Stored s,
        λ old found. touch_tier now m name k old found h,
      )

  -- `touch` raises exactly where the key is new and the tier's name names no tier.
  pub touch-err_iff :
      (now : ℕ) (m : TtlManager M) (name : TierName) (k : String) (x : Error)
      → (touch now m name k ≡ err x) ↔ ((get k m.entries ≡ none) × (tier_of name ≡ err x))
  touch-err_iff now m name k x = elim (Option-cases (get k m.entries)) [
    | inl missing ↦ (
      λ h. (missing, register_err now m name k [] (sym (touch-missing now m name k missing) ∙ h)),
      λ h. touch-missing now m name k missing ∙ unfold register in rw (h.1, register),
    )
    | inr (old, found) ↦ (
      λ h. absurd (ok-ne-err (sym (touch-found now m name k old found) ∙ h)),
      λ h. cc (found, h.0),
    )
  ]
