-- ===== src/Cache/Isolation.antt =====
-- src/factory_agent/application/cache.py: whose lines a request can be answered with. The store may
-- lose lines and refuse calls at any time; what it gives back has been written.
use factory_agent.Prelude.{
  ℕ, ◌≡◌, refl, ap, subst, ◌⊎◌, inl, inr, Bool, true, false, Option, none, some, List, [], ◌∷◌,
  Text, Result, ok, err, ◌>>=◌, ok-injective, nat_eq, list_eq, >>=-eq-ok,
}
use factory_agent.Cache.{
  CacheStore, AuthAwareCache, World, UnknownCacheDomain, build_key, looked_up, read, settled, write,
  invalidate_key, invalidate_scope, purge_all, scope_prefix, actual_ttl,
}
use factory_agent.Cache.Keys.{IsPlain, build_key-injective}

-- The store answers a key with a value.
abbrev pub Holds : {S : Type 0} → CacheStore S → S → Text → Text → Type 0
Holds store s key value = (store.fetch s key).1 ≡ some (some value)

-- What the cache relies on in Redis.
pub record IsStore {S : Type 0} (store : CacheStore S) : Type 0 where
  pub fetch_holds : (s : S) (k j v : Text) → Holds store (store.fetch s k).0 j v → Holds store s j v
  pub store_holds :
      (s : S) (k v : Text) (ttl : ℕ) (j w : Text)
      → Holds store (store.store s k v ttl).0 j w
      → ((k ≡ j) × (v ≡ w)) ⊎ Holds store s j w
  pub delete_holds :
      (s : S) (p j v : Text) → Holds store (store.delete_prefix s p).0 j v → Holds store s j v

-- The calls that a cache gets.
pub data Call (Params : Type 0) : Type 0 where
  reads : (domain tenant fingerprint : Text) → Params → Call Params
  writes : (domain tenant fingerprint : Text) → Params → Text → Option ℕ → Call Params
  invalidates_key : Text → Call Params
  invalidates_scope : (tenant fingerprint : Text) → Call Params
  purges : Call Params

module _ {S Params : Type 0} (store : CacheStore S) (sha256 : Text → Text) (dumps : Params → Text)
    (cache : AuthAwareCache) where
  -- An unknown domain raises before anything changes.
  abbrev pub after : {A : Type 0} → World S → Result UnknownCacheDomain (World S × A) → World S
  after w (err e) = w
  after w (ok (w', a)) = w'

  unfoldable pub perform : World S → Call Params → World S
  unfolding read write invalidate_key invalidate_scope purge_all
  perform w (reads d t f p) = after w (read store sha256 dumps cache w d t f p)
  perform w (writes d t f p v ttl) = after w (write store sha256 dumps cache w d t f p v ttl)
  perform w (invalidates_key key) = invalidate_key store sha256 dumps cache w key
  perform w (invalidates_scope t f) = invalidate_scope store sha256 dumps cache w t f
  perform w purges = purge_all store sha256 dumps cache w

  unfoldable pub run : World S → List (Call Params) → World S
  unfolding perform
  run w [] = w
  run w (c ∷ cs) = run (perform w c) cs

  -- The call writes the value under the key.
  abbrev Writes : Call Params → Text → Text → Type 0
  Writes (writes d t f p v ttl) key value =
      (build_key store sha256 dumps cache d t f p ≡ ok key) × (v ≡ value)
  Writes _ key value = ⊥

  settled-lines :
      (w : World S) (d : Text) (r : S × Bool) → (settled store sha256 dumps cache w d r).lines ≡ r.0
  unfolding settled
  settled-lines w d (s, true) = refl
  settled-lines w d (s, false) = refl

  looked_up-lines :
      (w : World S) (d : Text) (r : S × Option (Option Text))
      → (looked_up store sha256 dumps cache w d r).0.lines ≡ r.0
  unfolding looked_up
  looked_up-lines w d (s, none) = refl
  looked_up-lines w d (s, some none) = refl
  looked_up-lines w d (s, some (some v)) = refl

  -- A deletion adds nothing.
  delete-Holds :
      IsStore store
      → (w : World S) (d prefix key value : Text)
      → Holds store
          (settled store sha256 dumps cache w d (store.delete_prefix w.lines prefix)).lines
          key
          value
      → Holds store w.lines key value
  delete-Holds laws w d prefix key value h =
      laws.delete_holds w.lines prefix key value
        (subst (λ s. Holds store s key value) (settled-lines w d _) h)

  -- A lookup adds nothing.
  pub read-Holds :
      IsStore store
      → (w : World S) (d key value : Text) (r : Result UnknownCacheDomain Text)
      → Holds store
          (after w
            (r >>= λ k. ok (looked_up store sha256 dumps cache w d (store.fetch w.lines k)))).lines
          key
          value
      → Holds store w.lines key value
  read-Holds laws w d key value (err e) h = h
  read-Holds laws w d key value (ok k) h =
      laws.fetch_holds w.lines k key value
        (subst (λ s. Holds store s key value) (looked_up-lines w d _) h)

  -- A write adds its own line at most.
  pub write-Holds :
      IsStore store
      → (w : World S) (d v : Text) (ttl : ℕ) (key value : Text) (r : Result UnknownCacheDomain Text)
      → Holds store
          (after w (
            r >>= λ k. ok (
              settled store sha256 dumps cache w d (store.store w.lines k v ttl),
              (store.store w.lines k v ttl).1,
            ))).lines
          key
          value
      → ((r ≡ ok key) × (v ≡ value)) ⊎ Holds store w.lines key value
  write-Holds laws w d v ttl key value (err e) h = inr h
  write-Holds laws w d v ttl key value (ok k) h =
      elim (laws.store_holds w.lines k v ttl key value
        (subst (λ s. Holds store s key value) (settled-lines w d _) h)) [
          | inl (same, e) ↦ inl (ap ok same, e)
          | inr old ↦ inr old
        ]

  -- One call adds only the line that it writes.
  perform-Holds :
      IsStore store
      → (w : World S) (c : Call Params) (key value : Text)
      → Holds store (perform w c).lines key value
      → Writes c key value ⊎ Holds store w.lines key value
  unfolding perform read write invalidate_key invalidate_scope purge_all
  perform-Holds laws w (reads d t f p) key value h = inr (read-Holds laws w d key value _ h)
  perform-Holds laws w (writes d t f p v ttl) key value h =
      write-Holds laws w d v (actual_ttl cache d ttl) key value
        (build_key store sha256 dumps cache d t f p) h
  perform-Holds laws w (invalidates_key k) key value h = inr (delete-Holds laws w _ k key value h)
  perform-Holds laws w (invalidates_scope t f) key value h =
      inr (delete-Holds laws w _ (scope_prefix store sha256 dumps cache t f) key value h)
  perform-Holds laws w purges key value h = inr (delete-Holds laws w _ _ key value h)

  -- Some call writes the value under the key.
  abbrev Written : List (Call Params) → Text → Text → Type 0
  Written [] key value = ⊥
  Written (c ∷ cs) key value = Writes c key value ⊎ Written cs key value

  run-Holds :
      IsStore store
      → (w : World S) (cs : List (Call Params)) (key value : Text)
      → Holds store (run w cs).lines key value
      → Written cs key value ⊎ Holds store w.lines key value
  unfolding run
  run-Holds laws w [] key value h = inr h
  run-Holds laws w (c ∷ cs) key value h = elim (run-Holds laws (perform w c) cs key value h) [
    | inl later ↦ inl (inr later)
    | inr held ↦ elim (perform-Holds laws w c key value held) [
      | inl now ↦ inl (inl now)
      | inr old ↦ inr old
    ]
  ]

  -- The fingerprints that the calls write under hold no separator.
  abbrev pub ArePlain : List (Call Params) → Type 0
  ArePlain [] = Unit
  ArePlain (writes d t f p v ttl ∷ cs) = IsPlain f × ArePlain cs
  ArePlain (_ ∷ cs) = ArePlain cs

  -- Among the calls is a write of the value for the same domain, tenant, fingerprint and parameters
  -- (of the tenant and the parameters, the digests).
  abbrev pub WrittenFor :
      List (Call Params) → (domain tenant fingerprint : Text) → Params → Text → Type 0
  WrittenFor [] d t f p value = ⊥
  WrittenFor (writes d' t' f' p' v ttl ∷ cs) d t f p value =
      ((d' ≡ d)
        × (sha256 t' ≡ sha256 t)
        × (f' ≡ f)
        × (sha256 (dumps p') ≡ sha256 (dumps p))
        × (v ≡ value))
      ⊎ WrittenFor cs d t f p value
  WrittenFor (_ ∷ cs) d t f p value = WrittenFor cs d t f p value

  Written-WrittenFor :
      ((t : Text) → IsPlain (sha256 t))
      → (cs : List (Call Params)) (d t f key : Text) (p : Params) (value : Text) → ArePlain cs
      → IsPlain f
      → build_key store sha256 dumps cache d t f p ≡ ok key
      → Written cs key value
      → WrittenFor cs d t f p value
  Written-WrittenFor plain (writes d' t' f' p' v ttl ∷ cs) d t f key p value (pf', ps) pf k
        (inl (k', e)) =
      let (ed, et, ef, ep) =
        build_key-injective store sha256 dumps cache plain d' t' f' d t f key p' p pf' pf k' k in
      inl (ed, et, ef, ep, e)
  Written-WrittenFor plain (writes d' t' f' p' v ttl ∷ cs) d t f key p value (pf', ps) pf k
        (inr w) =
      inr (Written-WrittenFor plain cs d t f key p value ps pf k w)
  Written-WrittenFor plain [] d t f key p value ps pf k w = w
  Written-WrittenFor plain (reads d' t' f' p' ∷ cs) d t f key p value ps pf k (inl w) = absurd w
  Written-WrittenFor plain (invalidates_key k' ∷ cs) d t f key p value ps pf k (inl w) = absurd w
  Written-WrittenFor plain (invalidates_scope t' f' ∷ cs) d t f key p value ps pf k (inl w) =
      absurd w
  Written-WrittenFor plain (purges ∷ cs) d t f key p value ps pf k (inl w) = absurd w
  Written-WrittenFor plain (reads d' t' f' p' ∷ cs) d t f key p value ps pf k (inr w) =
      Written-WrittenFor plain cs d t f key p value ps pf k w
  Written-WrittenFor plain (invalidates_key k' ∷ cs) d t f key p value ps pf k (inr w) =
      Written-WrittenFor plain cs d t f key p value ps pf k w
  Written-WrittenFor plain (invalidates_scope t' f' ∷ cs) d t f key p value ps pf k (inr w) =
      Written-WrittenFor plain cs d t f key p value ps pf k w
  Written-WrittenFor plain (purges ∷ cs) d t f key p value ps pf k (inr w) =
      Written-WrittenFor plain cs d t f key p value ps pf k w

  looked_up-hit :
      (w : World S) (d : Text) (r : S × Option (Option Text)) (value : Text)
      → (looked_up store sha256 dumps cache w d r).1.value ≡ some value
      → r.1 ≡ some (some value)
  unfolding looked_up
  looked_up-hit w d (s, none) value h = cc
  looked_up-hit w d (s, some none) value h = cc
  looked_up-hit w d (s, some (some v)) value h = ap some h

  -- What a lookup that answers says of the key and of the store.
  pub read-hit :
      (w w' : World S) (d t f : Text) (p : Params) (value reason : Text)
      → read store sha256 dumps cache w d t f p
        ≡ ok (w', record { value = some value; reason = reason })
      → (key : Text) × (build_key store sha256 dumps cache d t f p ≡ ok key)
        × Holds store w.lines key value
  unfolding read
  read-hit w w' d t f p value reason h =
      let (key, k, e) = >>=-eq-ok (build_key store sha256 dumps cache d t f p) _ h in
      (
        key,
        k,
        looked_up-hit w d (store.fetch w.lines key) value (ap (λ x. x.1.value) (ok-injective e)),
      )

  -- From a store without lines, whatever calls came before, a lookup answers with a value only if a
  -- call wrote that value for the same domain, tenant digest, fingerprint and parameters' digest;
  -- digests and fingerprints hold no separator, and the store may lose lines and refuse calls.
  pub read-WrittenFor :
      IsStore store
      → ((t : Text) → IsPlain (sha256 t))
      → (w w' : World S) (calls : List (Call Params)) (d t f : Text) (p : Params)
        (value reason : Text)
      → ((key v : Text) → ¬ Holds store w.lines key v)
      → ArePlain calls
      → IsPlain f
      → read store sha256 dumps cache (run w calls) d t f p
        ≡ ok (w', record { value = some value; reason = reason })
      → WrittenFor calls d t f p value
  read-WrittenFor laws plain w w' cs d t f p value reason empty ps pf h =
      let (key, k, held) = read-hit (run w cs) w' d t f p value reason h in
      elim (run-Holds laws w cs key value held) [
        | inl written ↦ Written-WrittenFor plain cs d t f key p value ps pf k written
        | inr old ↦ absurd (empty key value old)
      ]
