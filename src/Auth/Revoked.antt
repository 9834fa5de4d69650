-- ===== src/Auth/Revoked.antt =====
-- What a key can do after it is revoked.
use event_driven_notificatio.Prelude.{
  ℕ, ◌⊎◌, ◌+◌, ◌≤◌, ◌≡◌, refl, ap, ◌∙◌, sym, Bool, true, false, ◌&&◌, List, [], ◌∷◌, Option, none,
  some, ltb, if◌then◌else◌, ◌==◌, filter, take, length, All, if_true, if_false, Bool-cases, inl,
  inr, arith,
}
use event_driven_notificatio.Prelude.Table.{update_row}
use event_driven_notificatio.Store.{Bytes}
use event_driven_notificatio.Http.{Failure}
use event_driven_notificatio.Auth.{AuthedKey}
use event_driven_notificatio.Auth.Middleware.{
  ApiKey, is_active, same_bytes, list_active_by_prefix, revoke_api_key, key_prefix_len,
  auth_cache_ttl, auth_revoked_ttl, Cache, CacheLaws, Crypto, AuthCalls, Admission, admitted,
  denied, extract_bearer, of_row, verifies, first_match, matched, is_locked, looked_up,
  unauthorized, slow_path, is_key_revoked, lookup_auth_cache, after_lookup, authenticate, revoke,
}

-- Rows that are active are not of the key.
abbrev Others : ℕ → ApiKey → Type 0
Others i k = is_active k ≡ true → (k.id == i) ≡ false

revoked_other :
    (i now : ℕ) (k : ApiKey)
    → Others i (if (k.id == i) && is_active k then record k { revoked_at = some now } else k)
revoked_other i now k = elim (Bool-cases (k.id == i)) [
  | inl same ↦ elim (Bool-cases (is_active k)) [
    | inl active ↦ rw (same, active) (λ h. cc)
    | inr dead ↦ rw (same, dead) (λ h. let e : true ≡ false = sym h ∙ dead in cc)
  ]
  | inr other ↦ rw other (λ h. other)
]

revoked-Others : (i now : ℕ) (keys : List ApiKey) → All (Others i) (revoke_api_key i now keys)
unfolding revoke_api_key update_row
revoked-Others i now [] = tt
revoked-Others i now (k ∷ ks) = (revoked_other i now k, revoked-Others i now ks)

abbrev pub In : ApiKey → List ApiKey → Type 0
In c [] = ⊥
In c (k ∷ ks) = (c ≡ k) ⊎ In c ks

All-In : (P : ApiKey → Type 0) (c : ApiKey) (keys : List ApiKey) → All P keys → In c keys → P c
All-In P c [] h m = elim m [ ]
All-In P c (k ∷ ks) h (inl e) = rw e h.0
All-In P c (k ∷ ks) h (inr m) = All-In P c ks h.1 m

module _ (cache : Cache) (crypto : Crypto) (raw : Bytes) where
  -- A candidate that verifies.
  abbrev Found : (ApiKey → Bool) → List ApiKey → Option ApiKey → Type 0
  Found p keys none = Unit
  Found p keys (some c) = In c keys × (p c ≡ true) × (verifies cache crypto raw c ≡ true)

  later :
      (p : ApiKey → Bool) (k : ApiKey) (ks : List ApiKey) (o : Option ApiKey)
      → Found p ks o
      → Found p (k ∷ ks) o
  later p k ks none h = tt
  later p k ks (some c) h = (inr h.0, h.1, h.2)

  first_match-Found :
      (p : ApiKey → Bool) (keys : List ApiKey)
      → Found p keys (first_match cache crypto raw (filter p keys))
  unfolding first_match
  first_match-Found p [] = tt
  first_match-Found p (k ∷ ks) =
      let rest = later p k ks _ (first_match-Found p ks) in
      elim (Bool-cases (p k)) [
        | inl hit ↦ elim (Bool-cases (verifies cache crypto raw k)) [
          | inl good ↦ rw (hit, good) (inl refl, hit, good)
          | inr bad ↦ rw (hit, bad) rest
        ]
        | inr miss ↦ rw miss rest
      ]

  -- An admission by a row that is active, not of the key i, and matches what was presented.
  abbrev pub ByOther : List ApiKey → ℕ → Admission → Type 0
  ByOther keys i (denied p) = Unit
  ByOther keys i (admitted k) =
      (c : ApiKey) × In c keys
      × (is_active c ≡ true)
      × ((c.id == i) ≡ false)
      × (verifies cache crypto raw c ≡ true)
      × (k ≡ of_row cache crypto c)

  module _ (keys : List ApiKey) (i : ℕ) (others : All (Others i) keys) (calls : AuthCalls) where
    active_part : (a b : Bool) → (a && b) ≡ true → b ≡ true
    active_part true b h = h
    active_part false b h = cc

    matched_other :
        (p : ApiKey → Bool)
        → ((k : ApiKey) → p k ≡ true → is_active k ≡ true)
        → (s : cache.State) (o : Option ApiKey) → Found p keys o
        → ByOther keys i (matched cache crypto calls raw s o).0
    unfolding matched unauthorized
    matched_other p active s none h = tt
    matched_other p active s (some c) h =
        let a = active c h.1 in (c, h.0, a, All-In (Others i) c keys others h.0 a, h.2, refl)

    looked_up_other :
        (s : cache.State) (fails : Option Failure)
        → ByOther keys i (looked_up cache crypto calls raw keys s fails).0
    unfolding looked_up list_active_by_prefix
    looked_up_other s (some e) = tt
    looked_up_other s none =
        let q : ApiKey → Bool =
          λ k. same_bytes k.key_prefix (take key_prefix_len raw) && is_active k in
        matched_other q
          (λ k h. active_part (same_bytes k.key_prefix (take key_prefix_len raw)) (is_active k) h) s
          _ (first_match-Found q keys)

    slow_path_other : (s : cache.State) → ByOther keys i (slow_path cache crypto calls raw keys s).0
    unfolding slow_path
    slow_path_other s = elim (Bool-cases (is_locked cache crypto calls raw s)) [
      | inl locked ↦ rw locked tt
      | inr unlocked ↦ rw unlocked (looked_up_other s calls.lookup_fails)
    ]

    missed_other :
        (s : cache.State) (o : Option AuthedKey)
        → o ≡ none
        → ByOther keys i (after_lookup cache crypto calls raw keys s o).0
    unfolding after_lookup
    missed_other s o e = rw e (slow_path_other s)

    marked_other :
        (s : cache.State) (o : Option AuthedKey) (hit : AuthedKey)
        → o ≡ some hit
        → is_key_revoked cache crypto calls hit.id s ≡ true
        → ByOther keys i (after_lookup cache crypto calls raw keys s o).0
    unfolding after_lookup
    marked_other s o hit e h = rw (e, h) (slow_path_other _)

    -- What the cache answers leads to no admission of the key i.
    hit_other :
        (s : cache.State) (hit : AuthedKey) (o : Option AuthedKey)
        → (o ≡ none) ⊎ ((o ≡ some hit) × (is_key_revoked cache crypto calls hit.id s ≡ true))
        → ByOther keys i (after_lookup cache crypto calls raw keys s o).0
    hit_other s hit o (inl e) = missed_other s o e
    hit_other s hit o (inr h) = marked_other s o hit h.0 h.1

-- As long as the entry is there, the marker is.
entry_is_marked :
    (cache : Cache) (laws : CacheLaws cache) (crypto : Crypto) (raw : Bytes)
    (i cached_at revoked_at : ℕ) (hit : AuthedKey) (s : cache.State) (calls : AuthCalls)
    → hit.id ≡ crypto.uuid_text i
    → cached_at ≤ revoked_at
    → calls.exists_fails ≡ false
    → let s1 = cache.set_auth cached_at (crypto.cache_key raw) hit auth_cache_ttl s in
      let s2 = cache.mark revoked_at (crypto.uuid_text i) auth_revoked_ttl s1 in
      (lookup_auth_cache cache crypto calls raw s2 ≡ none)
      ⊎ ((lookup_auth_cache cache crypto calls raw s2 ≡ some hit)
          × (is_key_revoked cache crypto calls hit.id s2 ≡ true))
unfolding lookup_auth_cache is_key_revoked
entry_is_marked cache laws crypto raw i cached_at revoked_at hit s calls own before works =
    let k = crypto.cache_key raw in
    let s1 = cache.set_auth cached_at k hit auth_cache_ttl s in
    let apart = laws.apart revoked_at calls.now auth_revoked_ttl k (crypto.uuid_text i) s1 in
    elim (Bool-cases calls.get_fails) [
      | inl down ↦ inl (if_true _ _ down)
      | inr up ↦ elim (Bool-cases (ltb calls.now (cached_at + auth_cache_ttl))) [
        | inl there ↦ inr (
          if_false _ _ up
              ∙ (apart ∙ laws.kept cached_at calls.now auth_cache_ttl k hit s (ground arith)),
          if_false _ _ works
              ∙ (ap
                    (λ id.
                      cache.is_marked calls.now id
                        (cache.mark revoked_at (crypto.uuid_text i) auth_revoked_ttl s1))
                    own
                  ∙ laws.marked revoked_at calls.now auth_revoked_ttl (crypto.uuid_text i) s1
                      (ground arith)),
        )
        | inr expired ↦ inl (
            if_false _ _ up
            ∙ (apart ∙ laws.gone cached_at calls.now auth_cache_ttl k hit s (ground arith)))
      ]
    ]

-- A key is revoked after it was cached, with the UPDATE and the marker written, and is presented
-- again at any time, whatever calls of the middleware fail but the look for the marker. It is not admitted
-- by the cache, although the entry may still be there: who is admitted is so by a row that is
-- active, that is not the revoked key's, and whose hash the presented key matches.
pub revoked_is_out :
    (cache : Cache) (laws : CacheLaws cache) (crypto : Crypto) (raw header : Bytes)
    (i cached_at revoked_at : ℕ) (hit : AuthedKey) (keys : List ApiKey) (s : cache.State)
    (calls : AuthCalls)
    → extract_bearer header ≡ some raw
    → hit.id ≡ crypto.uuid_text i
    → cached_at ≤ revoked_at
    → calls.exists_fails ≡ false
    → let s1 = cache.set_auth cached_at (crypto.cache_key raw) hit auth_cache_ttl s in
      let r = revoke cache crypto revoked_at false false i (keys, s1) in
      ByOther cache crypto raw r.0 i (authenticate cache crypto calls header r.0 r.1).0
unfolding authenticate revoke unauthorized
revoked_is_out cache laws crypto raw header i cached_at revoked_at hit keys s calls bearer own
      before works =
    rw (bearer, authenticate)
      (elim (Bool-cases (ltb (length raw) key_prefix_len)) [
        | inl short ↦ rw short tt
        | inr long ↦ rw long (
            hit_other cache crypto raw (revoke_api_key i revoked_at keys) i
              (revoked-Others i revoked_at keys) calls
              (cache.mark revoked_at (crypto.uuid_text i) auth_revoked_ttl
                (cache.set_auth cached_at (crypto.cache_key raw) hit auth_cache_ttl s))
              hit _
              (entry_is_marked cache laws crypto raw i cached_at revoked_at hit s calls own before
                works))
      ])
