-- ===== src/Cache.antt =====
-- src/factory_agent/application/cache.py: `AuthAwareCache`. The store (Redis behind the port
-- src/factory_agent/ports/cache.py), `sha256` and `json.dumps` are parameters; a store call returns
-- the store's next state and, when it does not raise, its answer. Bytes are a list of numbers. The
-- traces are not modelled.
pub mod Keys
pub mod Isolation
pub mod Roster
mod Codec
mod Examples
use factory_agent.Prelude.{
  ℕ, zero, suc, ◌+◌, Bool, true, false, not, Option, none, some, List, [], ◌∷◌, ◌++◌, if◌then◌else◌,
  nat_eq, list_eq, contains, Text, text, get, put, Result, ok, err, ◌>>=◌, length,
}
use factory_agent.Identity.{DataScope}

abbrev pub cache_domains : List Text
cache_domains =
    text "identity_org"
    ∷ text "order_progress"
    ∷ text "output"
    ∷ text "payroll"
    ∷ text "v2_result"
    ∷ []

abbrev pub default_ttl_by_domain : List (Text × ℕ)
default_ttl_by_domain =
    (text "identity_org", 86400)
    ∷ (text "order_progress", 120)
    ∷ (text "output", 60)
    ∷ (text "payroll", 60)
    ∷ (text "v2_result", 86400)
    ∷ []

abbrev pub shared_scope_fingerprint : Text
shared_scope_fingerprint = text "shared"

abbrev pub key_prefix : Text
key_prefix = text "fa"

pub data UnknownCacheDomain : Type 0 where
  unknown_cache_domain : Text → UnknownCacheDomain

pub record CacheLookup : Type 0 where
  pub value : Option Text
  pub reason : Text

-- Three `Counter`s.
pub record CacheStats : Type 0 where
  pub hits : List (Text × ℕ)
  pub misses : List (Text × ℕ)
  pub reasons : List (Text × ℕ)

abbrev count_or_zero : Option ℕ → ℕ
count_or_zero none = 0
count_or_zero (some n) = n

-- counter[k]
abbrev pub count : List (Text × ℕ) → Text → ℕ
count counter k = count_or_zero (get k counter)

-- counter[k] += 1
abbrev pub bump : List (Text × ℕ) → Text → List (Text × ℕ)
bump counter k = put k (count counter k + 1) counter

unfoldable pub record_hit : CacheStats → Text → CacheStats
record_hit stats domain = record stats { hits = bump stats.hits domain }

unfoldable pub record_miss : CacheStats → Text → Text → CacheStats
record_miss stats domain reason = record stats {
  misses = bump stats.misses domain;
  reasons = bump stats.reasons reason;
}

-- The port: `none` and `false` stand for a call that raises.
pub record CacheStore (S : Type 0) : Type 0 where
  pub fetch : S → Text → S × Option (Option Text)
  pub store : S → Text → Text → ℕ → S × Bool
  pub delete_prefix : S → Text → S × Bool

-- The versions and the policy that a cache is made with.
pub record AuthAwareCache : Type 0 where
  pub contract_version : Text
  pub metric_version : Text
  pub data_version : Text
  pub ttl_policy : List (Text × ℕ)

-- What the calls change: the store and the statistics.
pub record World (S : Type 0) : Type 0 where
  pub lines : S
  pub stats : CacheStats

abbrev pub colon : ℕ
colon = 58

unfoldable pub require_domain : Text → Result UnknownCacheDomain (Unit {0})
require_domain domain =
    if contains cache_domains domain then ok tt else err (unknown_cache_domain domain)

abbrev pub ttl_of : Option ℕ → Option ℕ → ℕ
ttl_of (some own) default = own
ttl_of none none = 0
ttl_of none (some seconds) = seconds

-- A registered domain has a default, so the last line of `ttl_of` is never asked for nothing.
unfoldable pub ttl_seconds : AuthAwareCache → Text → ℕ
unfolding get
ttl_seconds cache domain = ttl_of (get domain cache.ttl_policy) (get domain default_ttl_by_domain)

-- `ttl_seconds or self.ttl_seconds(domain)`
unfoldable pub actual_ttl : AuthAwareCache → Text → Option ℕ → ℕ
unfolding ttl_seconds
actual_ttl cache domain (some (suc n)) = suc n
actual_ttl cache domain _ = ttl_seconds cache domain

-- Parts of a text, with a separator behind each, before the rest.
abbrev pub joined : ℕ → List Text → Text → Text
joined separator [] rest = rest
joined separator (part ∷ others) rest = part ++ separator ∷ joined separator others rest

abbrev pub parts : List Text → Text → Text
parts = joined colon

-- `scope_fingerprint`; `digits` is `str` on a number.
unfoldable pub scope_fingerprint : (sha256 : Text → Text) (digits : ℕ → Text) → DataScope → Text
scope_fingerprint sha256 digits scope = sha256 (
    joined 31
      (scope.scope_version
        ∷ scope.tenant_id
        ∷ (if scope.mes_filtered then text "True" else text "False")
        ∷ digits (length scope.employee_ids)
        ∷ [])
      (digits (length scope.dept_ids)))

module _ {S Params : Type 0} (store : CacheStore S) (sha256 : Text → Text) (dumps : Params → Text)
    (cache : AuthAwareCache) where
  -- The part of every key before the tenant.
  unfoldable pub versions : Text
  versions =
      parts (key_prefix ∷ cache.contract_version ∷ cache.metric_version ∷ cache.data_version ∷ [])
        []

  -- The prefix of `invalidate_scope`.
  unfoldable pub scope_prefix : Text → Text → Text
  unfolding versions
  scope_prefix tenant_id fingerprint = versions ++ parts (sha256 tenant_id ∷ fingerprint ∷ []) []

  unfoldable pub key_of : Text → Text → Text → Params → Text
  unfolding versions
  key_of domain tenant_id fingerprint params =
      versions ++ parts (sha256 tenant_id ∷ fingerprint ∷ domain ∷ []) (sha256 (dumps params))

  unfoldable pub build_key : Text → Text → Text → Params → Result UnknownCacheDomain Text
  unfolding key_of require_domain
  build_key domain tenant_id fingerprint params = do
    _ ← require_domain domain
    ok (key_of domain tenant_id fingerprint params)

  -- The three ways out of `get`.
  unfoldable pub looked_up : World S → Text → S × Option (Option Text) → World S × CacheLookup
  unfolding record_hit record_miss
  looked_up w domain (lines, none) = (
    record { lines = lines; stats = record_miss w.stats domain (text "store_unavailable") },
    record { value = none; reason = text "store_unavailable" },
  )
  looked_up w domain (lines, some none) = (
    record { lines = lines; stats = record_miss w.stats domain (text "miss") },
    record { value = none; reason = text "miss" },
  )
  looked_up w domain (lines, some (some value)) = (
    record { lines = lines; stats = record_hit w.stats domain },
    record { value = some value; reason = text "hit" },
  )

  -- `get`
  unfoldable pub read :
      World S → Text → Text → Text → Params → Result UnknownCacheDomain (World S × CacheLookup)
  unfolding build_key looked_up
  read w domain tenant_id fingerprint params = do
    key ← build_key domain tenant_id fingerprint params
    ok (looked_up w domain (store.fetch w.lines key))

  -- What a store call that may raise leaves behind, under the domain that is counted.
  unfoldable pub settled : World S → Text → S × Bool → World S
  unfolding record_miss
  settled w domain (lines, true) = record w { lines = lines }
  settled w domain (lines, false) = record {
    lines = lines;
    stats = record_miss w.stats domain (text "store_unavailable");
  }

  -- `put`: the world afterwards, and whether the write succeeded.
  unfoldable pub write :
      World S
      → Text
      → Text
      → Text
      → Params
      → Text
      → Option ℕ
      → Result UnknownCacheDomain (World S × Bool)
  unfolding build_key settled actual_ttl
  write w domain tenant_id fingerprint params value ttl = do
    key ← build_key domain tenant_id fingerprint params
    let stored = store.store w.lines key value (actual_ttl cache domain ttl)
    ok (settled w domain stored, stored.1)

  unfoldable pub invalidate_key : World S → Text → World S
  unfolding settled
  invalidate_key w key = settled w (text "identity_org") (store.delete_prefix w.lines key)

  unfoldable pub invalidate_scope : World S → Text → Text → World S
  unfolding settled scope_prefix
  invalidate_scope w tenant_id fingerprint =
      settled w (text "identity_org")
        (store.delete_prefix w.lines (scope_prefix tenant_id fingerprint))

  unfoldable pub invalidate_base_data : World S → Text → World S
  unfolding invalidate_scope
  invalidate_base_data w tenant_id = invalidate_scope w tenant_id shared_scope_fingerprint

  unfoldable pub purge_all : World S → World S
  unfolding settled
  purge_all w =
      settled w (text "identity_org") (store.delete_prefix w.lines (key_prefix ++ colon ∷ []))

  -- Whether the store answers at all.
  unfoldable pub ping : World S → World S × Bool
  ping w =
      let (lines, answer) = store.fetch w.lines (key_prefix ++ colon ∷ text "__probe__") in
      (record w { lines = lines }, elim answer [ none ↦ false | some _ ↦ true ])
