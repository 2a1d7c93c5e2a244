-- ===== src/Cache/Keys.antt =====
-- src/factory_agent/application/cache.py: the layout of the keys. `:` separates the parts, so the
-- parts without a `:` can be read back.
use factory_agent.Prelude.{
  ◌≡◌, refl, sym, ◌∙◌, Bool, true, false, [], ◌∷◌, ◌++◌, contains, nat_eq, list_eq, Text, arith,
  Bool-cases, inl, inr, ok, not, contains_of_all, ok-injective,
}
use factory_agent.Cache.{
  CacheStore, AuthAwareCache, colon, versions, key_of, build_key, cache_domains, require_domain,
  parts,
}

-- A part of a key that holds no separator, as a hexadecimal digest does.
abbrev pub IsPlain : Text → Type 0
IsPlain part = contains part colon ≡ false

-- Two texts that are cut at their first separators agree in both halves.
split-plain :
    (a b c d : Text) → IsPlain a → IsPlain b → a ++ colon ∷ c ≡ b ++ colon ∷ d → (a ≡ b) × (c ≡ d)
split-plain [] [] c d p q h = (refl, cc)
split-plain [] (y ∷ b) c d p q h = let e : colon ≡ y = cc in absurd (ground (arith, q))
split-plain (x ∷ a) [] c d p q h = let e : x ≡ colon = cc in absurd (ground (arith, p))
split-plain (x ∷ a) (y ∷ b) c d p q h =
    let (ha, hc) = split-plain a b c d (ground (arith, p)) (ground (arith, q)) (cc h) in
    let e : x ≡ y = cc h in (cc (e, ha), hc)

cancel-prefix : (h s t : Text) → h ++ s ≡ h ++ t → s ≡ t
cancel-prefix [] s t e = e
cancel-prefix (c ∷ h) s t e = cancel-prefix h s t (cc e)

not-eq-true : (b : Bool) → not b ≡ true → b ≡ false
not-eq-true b h = ground arith

-- The registered domains hold no separator.
registered-IsPlain : (d : Text) → contains cache_domains d ≡ true → IsPlain d
registered-IsPlain d h =
    not-eq-true (contains d colon)
      (contains_of_all (λ x. not (contains x colon)) cache_domains d refl h)

module _ {S Params : Type 0} (store : CacheStore S) (sha256 : Text → Text) (dumps : Params → Text)
    (cache : AuthAwareCache) where
  build_key-eq-ok :
      (d t f : Text) (p : Params) (key : Text)
      → build_key store sha256 dumps cache d t f p ≡ ok key
      → IsPlain d × (key_of store sha256 dumps cache d t f p ≡ key)
  unfolding build_key require_domain
  build_key-eq-ok d t f p key h = elim (Bool-cases (contains cache_domains d)) [
    | inl known ↦ (registered-IsPlain d known, ok-injective (rw known at h))
    | inr unknown ↦ let bad = (rw unknown at h) in cc
  ]

  -- With digests and fingerprints that hold no separator, two requests that `build_key` gives one
  -- key agree in the domain, the tenant's digest, the fingerprint and the parameters' digest.
  pub build_key-injective :
      ((t : Text) → IsPlain (sha256 t))
      → (domain tenant fingerprint domain' tenant' fingerprint' key : Text)
        (params params' : Params)
      → IsPlain fingerprint
      → IsPlain fingerprint'
      → build_key store sha256 dumps cache domain tenant fingerprint params ≡ ok key
      → build_key store sha256 dumps cache domain' tenant' fingerprint' params' ≡ ok key
      → (domain ≡ domain')
        × (sha256 tenant ≡ sha256 tenant')
        × (fingerprint ≡ fingerprint')
        × (sha256 (dumps params) ≡ sha256 (dumps params'))
  unfolding key_of
  build_key-injective plain d t f d' t' f' key p p' pf pf' h h' =
      let (pd, e) = build_key-eq-ok d t f p key h in
      let (pd', e') = build_key-eq-ok d' t' f' p' key h' in
      let rest = parts (sha256 t ∷ f ∷ d ∷ []) (sha256 (dumps p)) in
      let rest' = parts (sha256 t' ∷ f' ∷ d' ∷ []) (sha256 (dumps p')) in
      let (et, e1) =
        split-plain (sha256 t) (sha256 t') _ _ (plain t) (plain t')
          (cancel-prefix (versions store sha256 dumps cache) rest rest' (e ∙ sym e')) in
      let (ef, e2) = split-plain f f' _ _ pf pf' e1 in
      let (ed, ep) = split-plain d d' _ _ pd pd' e2 in (ed, et, ef, ep)
