-- ===== src/Core/Ttl/Prune.antt =====
-- `prune` of src/lumina/core/ttl_manager.py: it raises nothing, and removes exactly what has expired.
use lumina_framework.Base.{
  ℕ, String, false, Option, none, some, List, [], ◌∷◌, Result, ok, err, ◌>>=◌, str_eq,
  if◌then◌else◌, All, ◌≡◌, refl, ◌∙◌, arith, eq_iff, eq_refl, Bool-cases, Option-cases, inl, inr,
}
use lumina_framework.Base.Dict.{Dict, get, NodupKeys}
use lumina_framework.Core.Ttl.{
  Ttls, Error, TtlEntry, TtlManager, delete, is_expired, expired, delete_all, prune, is_alive,
}

module _ {M : Type 0} where
  -- Each entry is stored under its own key.
  abbrev pub IsKeyed : Dict (TtlEntry M) → Type 0
  IsKeyed [] = Unit
  IsKeyed ((k, e) ∷ d) = (e.key ≡ k) × IsKeyed d

  pub record IsValid (m : TtlManager M) : Type 0 where
    pub nodup : NodupKeys m.entries
    pub keyed : IsKeyed m.entries

  -- The entries that `prune` leaves.
  pub live : ℕ → Ttls → Dict (TtlEntry M) → Dict (TtlEntry M)
  live now ttls [] = []
  live now ttls ((k, e) ∷ d) =
      let rest = live now ttls d in if is_expired now ttls e then rest else (k, e) ∷ rest

  delete_all-cons :
      (k : String) (x : TtlEntry M) (es : List (TtlEntry M)) (d : Dict (TtlEntry M))
      → All (λ (e : TtlEntry M). str_eq k e.key ≡ false) es
      → delete_all es ((k, x) ∷ d) ≡ (delete_all es d >>= λ d'. ok ((k, x) ∷ d'))
  unfolding delete_all
  delete_all-cons k x [] d h = refl
  delete_all-cons k x (e ∷ es) d h =
      rw h.0 (go (λ d'. delete_all-cons k x es d' h.1) (delete e.key d))
    where
      go :
          ((d' : Dict (TtlEntry M))
            → delete_all es ((k, x) ∷ d') ≡ (delete_all es d' >>= λ d''. ok ((k, x) ∷ d'')))
          → (m : Result Error (Dict (TtlEntry M)))
          → (m >>= (λ d'. ok ((k, x) ∷ d')) >>= λ d'. delete_all es d')
            ≡ (m >>= (λ d'. delete_all es d') >>= λ d'. ok ((k, x) ∷ d'))
      go ih (ok d') = ih d'
      go ih (err e') = refl

  expired-fresh :
      (now : ℕ) (ttls : Ttls) (k : String) (d : Dict (TtlEntry M))
      → IsKeyed d
      → get k d ≡ none
      → All (λ (e : TtlEntry M). str_eq k e.key ≡ false) (expired now ttls d)
  unfolding expired get
  expired-fresh now ttls k [] h g = tt
  expired-fresh now ttls k ((j, e) ∷ d) h g = elim (Bool-cases (is_expired now ttls e)) [
    | inl gone ↦ rw gone (
      rw h.0 (ground (arith, eq_iff j k, eq_iff k j)),
      expired-fresh now ttls k d h.1 (ground arith),
    )
    | inr stays ↦ rw stays (expired-fresh now ttls k d h.1 (ground arith))
  ]

  delete_all-expired :
      (now : ℕ) (ttls : Ttls) (d : Dict (TtlEntry M))
      → NodupKeys d
      → IsKeyed d
      → delete_all (expired now ttls d) d ≡ ok (live now ttls d)
  unfolding delete_all expired live
  delete_all-expired now ttls [] n h = refl
  delete_all-expired now ttls ((k, e) ∷ d) n h = elim (Bool-cases (is_expired now ttls e)) [
    | inl gone ↦ rw (gone, h.0, eq_refl) (delete_all-expired now ttls d n.1 h.1)
    | inr stays ↦ rw stays (
        delete_all-cons k e (expired now ttls d) d (expired-fresh now ttls k d h.1 n.0)
        ∙ rw (delete_all-expired now ttls d n.1 h.1))
  ]

  get-live-none :
      (now : ℕ) (ttls : Ttls) (k : String) (d : Dict (TtlEntry M))
      → get k d ≡ none
      → get k (live now ttls d) ≡ none
  unfolding live get
  get-live-none now ttls k [] h = refl
  get-live-none now ttls k ((j, e) ∷ d) h = ground (arith, get-live-none now ttls k d)

  live-NodupKeys :
      (now : ℕ) (ttls : Ttls) (d : Dict (TtlEntry M)) → NodupKeys d → NodupKeys (live now ttls d)
  unfolding live
  live-NodupKeys now ttls [] n = tt
  live-NodupKeys now ttls ((k, e) ∷ d) n = elim (Bool-cases (is_expired now ttls e)) [
    | inl gone ↦ rw gone (live-NodupKeys now ttls d n.1)
    | inr stays ↦ rw stays (get-live-none now ttls k d n.0, live-NodupKeys now ttls d n.1)
  ]

  live-IsKeyed :
      (now : ℕ) (ttls : Ttls) (d : Dict (TtlEntry M)) → IsKeyed d → IsKeyed (live now ttls d)
  unfolding live
  live-IsKeyed now ttls [] h = tt
  live-IsKeyed now ttls ((k, e) ∷ d) h = elim (Bool-cases (is_expired now ttls e)) [
    | inl gone ↦ rw gone (live-IsKeyed now ttls d h.1)
    | inr stays ↦ rw stays (h.0, live-IsKeyed now ttls d h.1)
  ]

  -- What a lookup finds, unless it has expired.
  abbrev unless_expired : ℕ → Ttls → Option (TtlEntry M) → Option (TtlEntry M)
  unless_expired now ttls none = none
  unless_expired now ttls (some e) = if is_expired now ttls e then none else some e

  get-live :
      (now : ℕ) (ttls : Ttls) (k : String) (d : Dict (TtlEntry M))
      → NodupKeys d
      → get k (live now ttls d) ≡ unless_expired now ttls (get k d)
  unfolding live get
  get-live now ttls k [] n = refl
  get-live now ttls k ((j, e) ∷ d) n =
      ground (arith, get-live now ttls k d n.1, get-live-none now ttls j d n.0, eq_iff j k)

  alive-unless :
      (now : ℕ) (m : TtlManager M) (k : String)
      → unless_expired now m.ttls (get k m.entries)
        ≡ (if is_alive now m k then get k m.entries else none)
  unfolding is_alive is_expired
  alive-unless now m k = elim (Option-cases (get k m.entries)) [
    | inl e ↦ rw (e, is_alive)
    | inr (x, e) ↦ rw (e, is_alive) (ground arith)
  ]

  -- On a valid manager `prune` raises nothing; afterwards exactly the keys that were alive are
  -- there, with their entries and the TTLs unchanged, the manager is valid, and what it returns is
  -- the list of the entries that had expired.
  pub prune_exact :
      (now : ℕ) (m : TtlManager M)
      → IsValid m
      → (m' : TtlManager M) × (prune now m ≡ ok (m', expired now m.ttls m.entries))
        × IsValid m'
        × (m'.ttls ≡ m.ttls)
        × ((k : String) → get k m'.entries ≡ (if is_alive now m k then get k m.entries else none))
  unfolding prune
  prune_exact now m v = (
    record m { entries = live now m.ttls m.entries },
    rw (delete_all-expired now m.ttls m.entries v.nodup v.keyed),
    record {
      nodup = live-NodupKeys now m.ttls m.entries v.nodup;
      keyed = live-IsKeyed now m.ttls m.entries v.keyed;
    },
    refl,
    λ k. get-live now m.ttls k m.entries v.nodup ∙ alive-unless now m k,
  )
