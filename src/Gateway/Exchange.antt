-- ===== src/Gateway/Exchange.antt =====
-- src/factory_agent/data_api/token_gateway.py: `TokenCredentialExchange`, `GatewayTokenRefresher` and
-- `TokenBackedMembershipResolver`. The state has the two dicts, the context variable `CURRENT_BUNDLE`,
-- and how often an exchange was tried and the clock was read. `Ports` has the parameters.
use factory_agent.Prelude.{
  ℕ, ◌+◌, Bool, false, Option, none, some, List, [], nat_beq, if◌then◌else◌, nat_eq, list_eq,
  pair_eq, is_empty, get, put, Text, strip, Result, ok, err,
}
use factory_agent.Identity.{TenantMembership}
use factory_agent.Authorization.{TrustedCredential}
use factory_agent.Gateway.{
  MesCredentialBundle, needs_refresh, ResolvedPrincipal, principal_from_bundle, GatewayError,
  unauthenticated, CredentialBundleResponse, bundle_from_response, Reply, received,
}

pub record LiveEntry : Type 0 where
  pub principal : ResolvedPrincipal
  pub bundle : MesCredentialBundle
  pub encrypted_credential : Text
  pub exchanged_at : ℕ

abbrev pub Key : Type 0
Key = Text × Text

-- `_identity_key`
abbrev pub identity_key : TrustedCredential → Key
identity_key credential = (credential.tenant_id, credential.user_id)

pub record State : Type 0 where
  pub entries_by_identity : List (Key × LiveEntry)
  pub entries_by_digest : List (Text × LiveEntry)
  pub current : Option MesCredentialBundle
  pub attempts : ℕ
  pub readings : ℕ

abbrev pub fresh_state : State
fresh_state = record {
  entries_by_identity = [];
  entries_by_digest = [];
  current = none;
  attempts = 0;
  readings = 0;
}

-- Whether the context variable is the very bundle.
abbrev pub is_current : Option MesCredentialBundle → MesCredentialBundle → Bool
is_current none bundle = false
is_current (some b) bundle = nat_beq b.object bundle.object

abbrev pub principal_of : Option LiveEntry → Option ResolvedPrincipal
principal_of none = none
principal_of (some entry) = some entry.principal

abbrev pub bundle_of : Option LiveEntry → Option MesCredentialBundle
bundle_of none = none
bundle_of (some entry) = some entry.bundle

unfoldable pub principal_for : TrustedCredential → State → Option ResolvedPrincipal
unfolding get
principal_for credential s = principal_of (get (identity_key credential) s.entries_by_identity)

unfoldable pub bundle_for : TrustedCredential → State → Option MesCredentialBundle
unfolding get
bundle_for credential s = bundle_of (get (identity_key credential) s.entries_by_identity)

-- `bind_for` on entry: the state, and the value to set back.
unfoldable pub bind_for :
    TrustedCredential → State → Result GatewayError (State × Option MesCredentialBundle)
unfolding get
bind_for credential s = elim (get (identity_key credential) s.entries_by_identity) [
  | none ↦ err unauthenticated
  | some entry ↦ ok (record s { current = some entry.bundle }, s.current)
]

-- `bind_for` on exit.
abbrev pub unbind : Option MesCredentialBundle → State → State
unbind token s = record s { current = token }

-- `TokenBackedMembershipResolver.resolve`; `none` stands for the `LookupError`.
abbrev pub membership_of : ResolvedPrincipal → TenantMembership
membership_of principal = record {
  user_id = principal.credential.user_id;
  tenant_id = principal.credential.tenant_id;
  employee_id = principal.credential.user_id;
  display_name = principal.display_name;
  role = principal.role;
  bound_dept_ids = principal.bound_dept_ids;
}

unfoldable pub resolve : State → TrustedCredential → Option TenantMembership
unfolding principal_for
resolve s credential = elim (principal_for credential s) [
  | none ↦ none
  | some principal ↦ some (membership_of principal)
]

-- The budget of the run refuses the n-th exchange or not, the endpoint answers it, and the clock is
-- read for the n-th time. `digest_of` is the digest, `fromisoformat` that of `datetime`.
pub record Ports : Type 0 where
  pub attempt : ℕ → Option GatewayError
  pub post : ℕ → Text → Reply
  pub clock : ℕ → ℕ
  pub fromisoformat : Text → Option ℕ
  pub digest_of : Text → Text
  pub refresh_threshold_seconds : ℕ

module _ (ports : Ports) where
  -- What the n-th exchange gets.
  unfoldable pub answer : ℕ → Text → Result GatewayError CredentialBundleResponse
  unfolding received
  answer n encrypted_credential = elim (ports.attempt n) [
    | some refused_by_budget ↦ err refused_by_budget
    | none ↦ received (ports.post n encrypted_credential)
  ]

  -- `_exchange` behind the answer; the clock is read for a valid result only.
  unfoldable pub exchanged :
      State
      → Result GatewayError CredentialBundleResponse
      → State × Result GatewayError MesCredentialBundle
  unfolding bundle_from_response
  exchanged s (err raised) = (record s { attempts = s.attempts + 1 }, err raised)
  exchanged s (ok result) = (
    record s { attempts = s.attempts + 1; readings = s.readings + 1 },
    bundle_from_response ports.fromisoformat s.attempts result (ports.clock s.readings),
  )

  -- `_exchange`
  unfoldable pub exchange : State → Text → State × Result GatewayError MesCredentialBundle
  unfolding answer exchanged
  exchange s encrypted_credential = exchanged s (answer s.attempts encrypted_credential)

  -- The two assignments at the end.
  unfoldable pub remember : Key → LiveEntry → State → State
  unfolding put
  remember key entry s = record s {
    entries_by_identity = put key entry s.entries_by_identity;
    entries_by_digest = put (ports.digest_of entry.encrypted_credential) entry s.entries_by_digest;
  }

  -- `authenticate` behind `_principal_from_bundle`.
  unfoldable pub admitted :
      Text
      → ℕ
      → MesCredentialBundle
      → State
      → Result GatewayError ResolvedPrincipal
      → State × Result GatewayError ResolvedPrincipal
  unfolding remember
  admitted encrypted_credential now bundle s (err raised) = (s, err raised)
  admitted encrypted_credential now bundle s (ok principal) = (
    remember (identity_key principal.credential)
        (record {
          principal = principal;
          bundle = bundle;
          encrypted_credential = encrypted_credential;
          exchanged_at = now;
        })
        s,
    ok principal,
  )

  -- `authenticate` behind `_exchange`.
  unfoldable pub authenticated :
      Text
      → ℕ
      → State × Result GatewayError MesCredentialBundle
      → State × Result GatewayError ResolvedPrincipal
  unfolding principal_from_bundle admitted
  authenticated encrypted_credential now (s, err raised) = (s, err raised)
  authenticated encrypted_credential now (s, ok bundle) =
      admitted encrypted_credential now bundle s (principal_from_bundle bundle)

  -- The test of the cached entry.
  unfoldable pub fresh_principal : Option LiveEntry → ℕ → Option ResolvedPrincipal
  unfolding needs_refresh
  fresh_principal none now = none
  fresh_principal (some entry) now =
      if needs_refresh entry.bundle now ports.refresh_threshold_seconds
      then none
      else some entry.principal

  unfoldable pub reuse_or_exchange :
      Text → ℕ → State → Option ResolvedPrincipal → State × Result GatewayError ResolvedPrincipal
  unfolding exchange authenticated
  reuse_or_exchange encrypted_credential now s (some principal) = (s, ok principal)
  reuse_or_exchange encrypted_credential now s none =
      authenticated encrypted_credential now (exchange s encrypted_credential)

  unfoldable pub authenticate : State → Text → State × Result GatewayError ResolvedPrincipal
  unfolding fresh_principal reuse_or_exchange get strip
  authenticate s encrypted_credential =
      if is_empty (strip encrypted_credential)
      then (s, err unauthenticated)
      else reuse_or_exchange encrypted_credential (ports.clock s.readings)
          (record s { readings = s.readings + 1 })
          (fresh_principal (get (ports.digest_of encrypted_credential) s.entries_by_digest)
            (ports.clock s.readings))
