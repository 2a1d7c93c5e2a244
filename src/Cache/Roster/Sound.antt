-- ===== src/Cache/Roster/Sound.antt =====
-- src/factory_agent/application/cache.py: a roster that `CachedDirectorySource` gives is one that the
-- directory gave.
use factory_agent.Prelude.{
  ◌≡◌, refl, sym, ap, ◌∙◌, ◌⊎◌, inl, inr, Bool, true, false, Option, none, some, List, [], ◌∷◌, map,
  Text, text, get, Result, ok, err, is_ok,
}
use factory_agent.Cache.{
  CacheStore, AuthAwareCache, World, CacheLookup, UnknownCacheDomain, shared_scope_fingerprint,
  read, write, build_key, actual_ttl, require_domain,
}
use factory_agent.Cache.Keys.{IsPlain, build_key-injective}
use factory_agent.Cache.Isolation.{Holds, IsStore, after, read-Holds, write-Holds, read-hit}
use factory_agent.Cache.Roster.{
  DirectoryRecord, dept_record, employee_record, Payload, entries, RosterError, unknown_domain,
  fetch_raised, Answer, Ask, adopted, as_dict, with_names, decode_entry, decode_entries,
  decode_payload, encode_records, decode_records, adopt, stored, refill, answered,
  cached_roster_with_status,
}

module _ {V : Type 0} (null : V) (loads : Text → Option (Payload V)) (json : Payload V → Text) where
  decode_entry-as_dict : (r : DirectoryRecord V) → decode_entry null (as_dict r) ≡ some r
  unfolding decode_entry as_dict with_names get
  decode_entry-as_dict (dept_record d n p) = refl
  decode_entry-as_dict (employee_record e n p d) = refl

  decode_entries-as_dict :
      (rs : List (DirectoryRecord V)) → decode_entries null (map as_dict rs) ≡ some rs
  unfolding decode_entries
  decode_entries-as_dict [] = refl
  decode_entries-as_dict (r ∷ rs) =
      rw (decode_entry-as_dict r, decode_entries) (rw (decode_entries-as_dict rs) refl)

  -- When `json.loads` reads back what `json.dumps` wrote, decoding the encoding of any roster,
  -- departments and employees mixed, gives the same records.
  pub decode_records-encode_records :
      ((p : Payload V) → loads (json p) ≡ some p)
      → (rs : List (DirectoryRecord V))
      → decode_records null loads json (encode_records null loads json rs) ≡ some rs
  unfolding decode_records encode_records decode_payload
  decode_records-encode_records back rs =
      rw (back (entries (map as_dict rs))) (decode_entries-as_dict rs)

module _ {S V : Type 0} (store : CacheStore S) (sha256 : Text → Text) (dumps : Text → Text)
    (cache : AuthAwareCache) (null : V) (loads : Text → Option (Payload V))
    (json : Payload V → Text) where
  abbrev roster_key : Text → Text → Result UnknownCacheDomain Text
  roster_key t op =
      build_key store sha256 dumps cache (text "identity_org") t shared_scope_fingerprint op

  stored-Holds :
      (E : Type 0) (w : World S) (rs : List (DirectoryRecord V)) (key value : Text)
      (r : Result UnknownCacheDomain (World S × Bool))
      → Holds store
          (stored store sha256 dumps cache null loads json {E = E} w rs r).0.lines
          key
          value
      → Holds store (after store sha256 dumps cache w r).lines key value
  unfolding stored
  stored-Holds E w rs key value (err u) h = h
  stored-Holds E w rs key value (ok (w', b)) h = h

  read-known :
      (w : World S) (t op : Text)
      → is_ok (read store sha256 dumps cache w (text "identity_org") t shared_scope_fingerprint op)
        ≡ true
  unfolding read build_key require_domain
  read-known w t op = refl

  module _ {E : Type 0} where
    abbrev pub ask : World S → Ask V E → Answer S V E
    ask w a =
        cached_roster_with_status store sha256 dumps cache null loads json w a.tenant_id a.op
          a.fetched

    -- The calls one after the other.
    abbrev pub ask_all : World S → List (Ask V E) → World S
    ask_all w [] = w
    ask_all w (a ∷ asks) = ask_all (ask w a).0 asks

    -- One of the calls was for that tenant and that roster, by their digests, and the directory
    -- gave the records.
    abbrev pub GaveFor : List (Ask V E) → Text → Text → List (DirectoryRecord V) → Type 0
    GaveFor [] t op rs = ⊥
    GaveFor (a ∷ asks) t op rs =
        ((sha256 a.tenant_id ≡ sha256 t)
          × (sha256 (dumps a.op) ≡ sha256 (dumps op))
          × (a.fetched ≡ ok rs))
        ⊎ GaveFor asks t op rs

    -- The answer's records are the directory's own, from this call or, for a shared line, from one
    -- before; and only the directory's own error is passed on.
    abbrev pub IsSourced :
        List (Ask V E) → Ask V E → Result (RosterError E) (List (DirectoryRecord V) × Bool) → Type 0
    IsSourced before a (ok (rs, true)) = GaveFor before a.tenant_id a.op rs
    IsSourced before a (ok (rs, false)) = a.fetched ≡ ok rs
    IsSourced before a (err (fetch_raised e)) = a.fetched ≡ err e
    IsSourced before a (err (unknown_domain u)) = ⊥

    -- The call writes the value under the key.
    abbrev Wrote : Text → Text → Result E (List (DirectoryRecord V)) → Text → Text → Type 0
    Wrote t op fetched key value =
        (roster_key t op ≡ ok key)
        × (rs : List (DirectoryRecord V)) × (fetched ≡ ok rs)
        × (encode_records null loads json rs ≡ value)

    abbrev WroteAny : List (Ask V E) → Text → Text → Type 0
    WroteAny [] key value = ⊥
    WroteAny (a ∷ asks) key value =
        Wrote a.tenant_id a.op a.fetched key value ⊎ WroteAny asks key value

    refill-Holds :
        IsStore store
        → (w : World S) (t op : Text) (fetched : Result E (List (DirectoryRecord V)))
          (key value : Text)
        → Holds store
            (refill store sha256 dumps cache null loads json w t op fetched).0.lines
            key
            value
        → Wrote t op fetched key value ⊎ Holds store w.lines key value
    unfolding refill write
    refill-Holds laws w t op (err e) key value h = inr h
    refill-Holds laws w t op (ok rs) key value h =
        elim (write-Holds store sha256 dumps cache laws w (text "identity_org")
          (encode_records null loads json rs) (actual_ttl cache (text "identity_org") none) key
          value (roster_key t op)
          (stored-Holds E w rs key value
            (write store sha256 dumps cache w (text "identity_org") t shared_scope_fingerprint op
              (encode_records null loads json rs) none)
            h)) [ inl (k, e) ↦ inl (k, rs, refl, e) | inr old ↦ inr old ]

    adopted-Holds :
        IsStore store
        → (w : World S) (t op : Text) (fetched : Result E (List (DirectoryRecord V)))
          (o : Option (List (DirectoryRecord V))) (key value : Text)
        → Holds store
            (adopted store sha256 dumps cache null loads json w t op fetched o).0.lines
            key
            value
        → Wrote t op fetched key value ⊎ Holds store w.lines key value
    unfolding adopted
    adopted-Holds laws w t op fetched (some rs) key value h = inr h
    adopted-Holds laws w t op fetched none key value h =
        refill-Holds laws w t op fetched key value h

    answered-Holds :
        IsStore store
        → (w : World S) (t op : Text) (fetched : Result E (List (DirectoryRecord V)))
          (r : Result UnknownCacheDomain (World S × CacheLookup)) (key value : Text)
        → Holds store
            (answered store sha256 dumps cache null loads json w t op fetched r).0.lines
            key
            value
        → Wrote t op fetched key value
          ⊎ Holds store (after store sha256 dumps cache w r).lines key value
    unfolding answered
    answered-Holds laws w t op fetched (err u) key value h = inr h
    answered-Holds laws w t op fetched (ok (w', l)) key value h =
        adopted-Holds laws w' t op fetched _ key value h

    ask-Holds :
        IsStore store
        → (w : World S) (a : Ask V E) (key value : Text) → Holds store (ask w a).0.lines key value
        → Wrote a.tenant_id a.op a.fetched key value ⊎ Holds store w.lines key value
    unfolding cached_roster_with_status read
    ask-Holds laws w a key value h =
        elim (answered-Holds laws w a.tenant_id a.op a.fetched
          (read store sha256 dumps cache w (text "identity_org") a.tenant_id
            shared_scope_fingerprint a.op)
          key value h) [
            | inl now ↦ inl now
            | inr held ↦ inr (
                read-Holds store sha256 dumps cache laws w (text "identity_org") key value
                  (roster_key a.tenant_id a.op) held)
          ]

    ask_all-Holds :
        IsStore store
        → (w : World S) (asks : List (Ask V E)) (key value : Text)
        → Holds store (ask_all w asks).lines key value
        → WroteAny asks key value ⊎ Holds store w.lines key value
    ask_all-Holds laws w [] key value h = inr h
    ask_all-Holds laws w (a ∷ asks) key value h =
        elim (ask_all-Holds laws (ask w a).0 asks key value h) [
          | inl later ↦ inl (inr later)
          | inr held ↦ elim (ask-Holds laws w a key value held) [
            | inl now ↦ inl (inl now)
            | inr old ↦ inr old
          ]
        ]

    -- A line that decodes was written for a roster that the directory gave.
    WroteAny-GaveFor :
        ((t : Text) → IsPlain (sha256 t))
        → ((p : Payload V) → loads (json p) ≡ some p)
        → (asks : List (Ask V E)) (t op key value : Text) (rs : List (DirectoryRecord V))
        → roster_key t op ≡ ok key
        → decode_records null loads json value ≡ some rs
        → WroteAny asks key value
        → GaveFor asks t op rs
    WroteAny-GaveFor plain back [] t op key value rs k d w = w
    WroteAny-GaveFor plain back (a ∷ asks) t op key value rs k d (inl (k', rs', gave, e)) =
        let (ed, et, ef, eo) =
          build_key-injective store sha256 dumps cache plain (text "identity_org") a.tenant_id
            shared_scope_fingerprint (text "identity_org") t shared_scope_fingerprint key a.op op
            refl refl k' k in
        let same : ◌≡◌ {A = Option (List (DirectoryRecord V))} (some rs') (some rs) =
          sym (decode_records-encode_records null loads json back rs')
          ∙ ap (decode_records null loads json) e
          ∙ d in
        let records : rs' ≡ rs = cc same in inl (et, eo, gave ∙ ap ok records)
    WroteAny-GaveFor plain back (a ∷ asks) t op key value rs k d (inr w) =
        inr (WroteAny-GaveFor plain back asks t op key value rs k d w)

    refill-IsSourced :
        (before : List (Ask V E)) (w : World S) (t op : Text)
        (fetched : Result E (List (DirectoryRecord V)))
        → IsSourced before
            (record { tenant_id = t; op = op; fetched = fetched })
            (refill store sha256 dumps cache null loads json w t op fetched).1
    unfolding refill stored write build_key require_domain
    refill-IsSourced before w t op (err e) = refl
    refill-IsSourced before w t op (ok rs) = refl

    adopted-IsSourced :
        (before : List (Ask V E)) (w : World S) (t op : Text)
        (fetched : Result E (List (DirectoryRecord V))) (o : Option (List (DirectoryRecord V)))
        → ((rs : List (DirectoryRecord V)) → o ≡ some rs → GaveFor before t op rs)
        → IsSourced before
            (record { tenant_id = t; op = op; fetched = fetched })
            (adopted store sha256 dumps cache null loads json w t op fetched o).1
    unfolding adopted
    adopted-IsSourced before w t op fetched (some rs) h = h rs refl
    adopted-IsSourced before w t op fetched none h = refill-IsSourced before w t op fetched

    -- The line that an adopted roster comes from is in the store.
    adopt-GaveFor :
        IsStore store
        → ((t : Text) → IsPlain (sha256 t))
        → ((p : Payload V) → loads (json p) ≡ some p)
        → (w w' : World S) (before : List (Ask V E)) (t op : Text) (reason : Text)
          (value : Option Text)
        → ((key v : Text) → ¬ Holds store w.lines key v)
        → read store sha256 dumps cache
            (ask_all w before)
            (text "identity_org")
            t
            shared_scope_fingerprint
            op
          ≡ ok (w', record { value = value; reason = reason })
        → (rs : List (DirectoryRecord V)) → adopt null loads json value ≡ some rs
        → GaveFor before t op rs
    unfolding adopt
    adopt-GaveFor laws plain back w w' before t op reason none empty h rs d = cc
    adopt-GaveFor laws plain back w w' before t op reason (some raw) empty h rs d =
        let (key, k, held) =
          read-hit store sha256 dumps cache (ask_all w before) w' (text "identity_org") t
            shared_scope_fingerprint op raw reason h in
        elim (ask_all-Holds laws w before key raw held) [
          | inl wrote ↦ WroteAny-GaveFor plain back before t op key raw rs k d wrote
          | inr old ↦ absurd (empty key raw old)
        ]

    answered-IsSourced :
        IsStore store
        → ((t : Text) → IsPlain (sha256 t))
        → ((p : Payload V) → loads (json p) ≡ some p)
        → (w : World S) (before : List (Ask V E)) (a : Ask V E)
          (r : Result UnknownCacheDomain (World S × CacheLookup))
        → ((key v : Text) → ¬ Holds store w.lines key v)
        → is_ok r ≡ true
        → read store sha256 dumps cache
            (ask_all w before)
            (text "identity_org")
            a.tenant_id
            shared_scope_fingerprint
            a.op
          ≡ r
        → IsSourced before a
            (answered store sha256 dumps cache null loads json
              (ask_all w before)
              a.tenant_id
              a.op
              a.fetched
              r).1
    unfolding answered
    answered-IsSourced laws plain back w before a (err u) empty known h = cc
    answered-IsSourced laws plain back w before a (ok (w', l)) empty known h =
        adopted-IsSourced before w' a.tenant_id a.op a.fetched (adopt null loads json l.value)
          (adopt-GaveFor laws plain back w w' before a.tenant_id a.op l.reason l.value empty h)

    -- From a store without lines, whatever rosters were asked for before, a call answers with the
    -- directory's own error, with the directory's own records, or, marked as cached, with records
    -- that the directory gave in an earlier call for the same tenant and roster (their digests
    -- being equal). The digests hold no separator, JSON reads back what it wrote, and the store may
    -- lose lines and refuse calls at any time.
    pub ask-IsSourced :
        IsStore store
        → ((t : Text) → IsPlain (sha256 t))
        → ((p : Payload V) → loads (json p) ≡ some p)
        → (w : World S) (before : List (Ask V E)) (a : Ask V E)
        → ((key v : Text) → ¬ Holds store w.lines key v)
        → IsSourced before a (ask (ask_all w before) a).1
    unfolding cached_roster_with_status
    ask-IsSourced laws plain back w before a empty =
        answered-IsSourced laws plain back w before a
          (read store sha256 dumps cache (ask_all w before) (text "identity_org") a.tenant_id
            shared_scope_fingerprint a.op)
          empty (read-known (ask_all w before) a.tenant_id a.op) refl
