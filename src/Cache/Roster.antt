-- ===== src/Cache/Roster.antt =====
-- src/factory_agent/application/cache.py: `CachedDirectorySource`, the shared roster lines in front of
-- a directory. `json.loads` and `json.dumps` are parameters, and so is the value that a field holds:
-- the source copies it unread. What the wrapped directory gives is an argument of each call.
pub mod Sound
use factory_agent.Prelude.{
  Bool, true, false, Option, none, some, List, [], ◌∷◌, map, Text, text, Result, ok, err, ◌>>=◌,
  nat_eq, list_eq, get,
}
use factory_agent.Cache.{
  CacheStore, AuthAwareCache, World, CacheLookup, UnknownCacheDomain, shared_scope_fingerprint,
  read, write,
}

-- `DeptRecord | EmployeeRecord`
pub data DirectoryRecord (V : Type 0) : Type 0 where
  dept_record : (dept_id name name_pk : V) → DirectoryRecord V
  employee_record : (employee_id name name_pk dept : V) → DirectoryRecord V

-- What `json.loads` makes of a line, as far as the decoder looks.
pub data Entry (V : Type 0) : Type 0 where
  object : List (Text × V) → Entry V
  no_object : Entry V

pub data Payload (V : Type 0) : Type 0 where
  entries : List (Entry V) → Payload V
  no_list : Payload V

pub data RosterError (E : Type 0) : Type 0 where
  unknown_domain : UnknownCacheDomain → RosterError E
  fetch_raised : E → RosterError E

module _ {V : Type 0} where
  -- `asdict`
  unfoldable pub as_dict : DirectoryRecord V → Entry V
  as_dict (dept_record d n p) =
      object ((text "dept_id", d) ∷ (text "name", n) ∷ (text "name_pk", p) ∷ [])
  as_dict (employee_record e n p d) =
      object
        ((text "employee_id", e) ∷ (text "name", n) ∷ (text "name_pk", p) ∷ (text "dept", d) ∷ [])

  -- The values that every record has; `none` stands for the `KeyError`.
  unfoldable pub with_names :
      List (Text × V) → (V → V → DirectoryRecord V) → Option (DirectoryRecord V)
  unfolding get
  with_names item make = elim (get (text "name") item) [
    | none ↦ none
    | some name ↦ elim (get (text "name_pk") item) [
      | none ↦ none
      | some name_pk ↦ some (make name name_pk)
    ]
  ]

  -- item.get(key), with the `None` of the model's values.
  abbrev pub or_null : V → Option V → V
  or_null null none = null
  or_null null (some v) = v

  unfoldable pub decode_entry : V → Entry V → Option (DirectoryRecord V)
  unfolding with_names get
  decode_entry null no_object = none
  decode_entry null (object item) = elim (get (text "dept_id") item) [
    | some dept_id ↦ with_names item (dept_record dept_id)
    | none ↦ elim (get (text "employee_id") item) [
      | some employee_id ↦ with_names item (λ name name_pk.
          employee_record employee_id name name_pk (or_null null (get (text "dept") item)))
      | none ↦ none
    ]
  ]

  -- One bad entry spoils the line.
  unfoldable pub decode_entries : V → List (Entry V) → Option (List (DirectoryRecord V))
  unfolding decode_entry
  decode_entries null [] = some []
  decode_entries null (e ∷ es) = elim (decode_entry null e) [
    | none ↦ none
    | some r ↦ elim (decode_entries null es) [ none ↦ none | some rs ↦ some (r ∷ rs) ]
  ]

  unfoldable pub decode_payload : V → Option (Payload V) → Option (List (DirectoryRecord V))
  unfolding decode_entries
  decode_payload null none = none
  decode_payload null (some no_list) = none
  decode_payload null (some (entries es)) = decode_entries null es

-- A call of `cached_roster_with_status`, with what the directory would give.
pub record Ask (V E : Type 0) : Type 0 where
  pub tenant_id : Text
  pub op : Text
  pub fetched : Result E (List (DirectoryRecord V))

abbrev pub Answer : (S V E : Type 0) → Type 0
Answer S V E = World S × Result (RosterError E) (List (DirectoryRecord V) × Bool)

module _ {V : Type 0} (null : V) (loads : Text → Option (Payload V)) (json : Payload V → Text) where
  -- `_encode_records`
  unfoldable pub encode_records : List (DirectoryRecord V) → Text
  unfolding as_dict
  encode_records records = json (entries (map as_dict records))

  -- `_decode_records`
  unfoldable pub decode_records : Text → Option (List (DirectoryRecord V))
  unfolding decode_payload
  decode_records raw = decode_payload null (loads raw)

  -- A line is adopted when there is one and it decodes.
  unfoldable pub adopt : Option Text → Option (List (DirectoryRecord V))
  unfolding decode_records
  adopt none = none
  adopt (some raw) = decode_records raw

module _ {S V : Type 0} (store : CacheStore S) (sha256 : Text → Text) (dumps : Text → Text)
    (cache : AuthAwareCache) (null : V) (loads : Text → Option (Payload V))
    (json : Payload V → Text) where
  -- A write that the store refuses changes nothing for the caller.
  unfoldable pub stored :
      {E : Type 0}
      → World S
      → List (DirectoryRecord V)
      → Result UnknownCacheDomain (World S × Bool)
      → Answer S V E
  stored w records (err u) = (w, err (unknown_domain u))
  stored w records (ok (w', written)) = (w', ok (records, false))

  -- The way to the wrapped directory; `op` stands for the parameters `{"op": op}`.
  unfoldable pub refill :
      {E : Type 0} → World S → Text → Text → Result E (List (DirectoryRecord V)) → Answer S V E
  unfolding stored encode_records
  refill w tenant_id op (err e) = (w, err (fetch_raised e))
  refill w tenant_id op (ok records) = stored w records (
      write store sha256 dumps cache w (text "identity_org") tenant_id shared_scope_fingerprint op
        (encode_records null loads json records) none)

  -- A line that was adopted ends the call.
  unfoldable pub adopted :
      {E : Type 0}
      → World S
      → Text
      → Text
      → Result E (List (DirectoryRecord V))
      → Option (List (DirectoryRecord V))
      → Answer S V E
  unfolding refill
  adopted w tenant_id op fetched (some records) = (w, ok (records, true))
  adopted w tenant_id op fetched none = refill w tenant_id op fetched

  unfoldable pub answered :
      {E : Type 0}
      → World S
      → Text
      → Text
      → Result E (List (DirectoryRecord V))
      → Result UnknownCacheDomain (World S × CacheLookup)
      → Answer S V E
  unfolding adopt adopted
  answered w tenant_id op fetched (err u) = (w, err (unknown_domain u))
  answered w tenant_id op fetched (ok (w', lookup)) =
      adopted w' tenant_id op fetched (adopt null loads json lookup.value)

  unfoldable pub cached_roster_with_status :
      {E : Type 0} → World S → Text → Text → Result E (List (DirectoryRecord V)) → Answer S V E
  unfolding answered
  cached_roster_with_status w tenant_id op fetched =
      answered w tenant_id op fetched (
        read store sha256 dumps cache w (text "identity_org") tenant_id shared_scope_fingerprint op)

  unfoldable pub list_depts :
      {E : Type 0} → World S → Text → Result E (List (DirectoryRecord V)) → Answer S V E
  unfolding cached_roster_with_status
  list_depts w tenant_id fetched = cached_roster_with_status w tenant_id (text "depts") fetched

  unfoldable pub fetch_employee_roster :
      {E : Type 0} → World S → Text → Result E (List (DirectoryRecord V)) → Answer S V E
  unfolding cached_roster_with_status
  fetch_employee_roster w tenant_id fetched =
      cached_roster_with_status w tenant_id (text "employees") fetched
