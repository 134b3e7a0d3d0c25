-- ===== src/Auth/Laws/KeySets.antt =====
-- internal/auth/identity_jwt.go: how old the keys are that the cache gives out.
use linka_plays_metric.Prelude.{
  ℕ, ◌+◌, ◌≤◌, ◌<◌, ◌≡◌, refl, ◌⊎◌, inl, inr, Bool, true, false, not, ◌&&◌, arith, Time, Result,
  Error, ok, err, Bool-cases, Result-cases, hour,
}
use linka_plays_metric.Auth.Codecs.{Codec}
use linka_plays_metric.Auth.Identities.{KeySet}
use linka_plays_metric.Auth.KeySets.{
  HttpJwks, Exchange, cache_ttl, max_stale, read_exchange, is_younger, get_keys,
}

module _ (c : Codec) where
  module _ (s t : HttpJwks) (keys : KeySet) where
    abbrev given : KeySet → HttpJwks → Result KeySet × HttpJwks
    given ks u = (ok ks, u)

    same_parts : (ks : KeySet) (u : HttpJwks) → given ks u ≡ given keys t → (t ≡ u) × (keys ≡ ks)
    same_parts ks u h = (cc h, cc h)

    -- The cache is given out within one of its two bounds.
    cache_kept :
        (force : Bool) (now later limit : ℕ)
        → (not force && is_younger c s later limit) ≡ true
        → limit ≤ hour
        → now ≤ later
        → given s.keys s ≡ given keys t
        → (force ≡ false) × (t ≡ s) × (keys ≡ s.keys) × (now < s.fetched_at + hour)
    cache_kept force now later limit young bound order h =
        let (a, b) = same_parts s.keys s h in (ground arith, a, b, ground arith)

  -- The keys that a call gives out are those that it has just fetched, which it keeps with the time
  -- of the fetch; or it keeps the cache as it was and gives out its keys, which are less than an
  -- hour old, and only if the call does not force a fetch.
  pub get_keys-fresh :
      (s t : HttpJwks) (force : Bool) (now later last : Time) (exchange : Exchange) (keys : KeySet)
      → now ≤ later
      → get_keys c s force now later last exchange ≡ (ok keys, t)
      → ((read_exchange c exchange ≡ ok keys) × (t.keys ≡ keys) × (t.fetched_at ≡ last))
        ⊎ ((force ≡ false) × (t ≡ s) × (keys ≡ s.keys) × (now < s.fetched_at + hour))
  unfolding get_keys
  get_keys-fresh s t force now later last exchange keys order h =
      elim (Bool-cases (not force && is_younger c s now cache_ttl)) [
        | inl young ↦ inr (
            cache_kept s t keys force now now cache_ttl young (omega arith) (omega arith)
              (rw (young, get_keys) at h))
        | inr old ↦ elim (Result-cases (read_exchange c exchange)) [
          | inl (fetched, read) ↦
              let e : given s t keys fetched (record { keys = fetched; fetched_at = last })
                  ≡ given s t keys keys t =
                rw (old, read, get_keys) at h in
              let (a, b) =
                same_parts s t keys fetched (record { keys = fetched; fetched_at = last }) e in
              inl (rw (b, read) refl, rw a (cc b), rw a refl)
          | inr (e, failed) ↦ elim (Bool-cases (not force && is_younger c s later max_stale)) [
            | inl young ↦ inr (
                cache_kept s t keys force now later max_stale young (omega arith) order
                  (rw (old, failed, young, get_keys) at h))
            | inr stale ↦ cc (rw (old, failed, stale, get_keys) at h)
          ]
        ]
      ]

  -- A call that gives out no keys leaves the cache as it was.
  pub get_keys_failed :
      (s t : HttpJwks) (force : Bool) (now later last : Time) (exchange : Exchange) (e : Error)
      → get_keys c s force now later last exchange ≡ (err e, t)
      → t ≡ s
  unfolding get_keys
  get_keys_failed s t force now later last exchange e h =
      elim (Bool-cases (not force && is_younger c s now cache_ttl)) [
        | inl young ↦ cc (rw (young, get_keys) at h)
        | inr old ↦ elim (Result-cases (read_exchange c exchange)) [
          | inl (fetched, read) ↦ cc (rw (old, read, get_keys) at h)
          | inr (f, failed) ↦ cc (rw (old, failed, get_keys) at h)
        ]
      ]
