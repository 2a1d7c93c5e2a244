-- ===== src/Gateway.antt =====
-- src/factory_agent/data_api/credentials.py and the pure part of
-- src/factory_agent/data_api/token_gateway.py: the bundle, the principal that it stands for, and what
-- the token endpoint answered. The answer is taken as httpx, json and pydantic leave it; the instants
-- are microseconds. Messages of exceptions are left out.
pub mod Exchange
pub mod Refresh
pub mod Stands
pub mod Kept
pub mod Scope
pub mod Members
mod Examples
use factory_agent.Prelude.{
  ℕ, ◌+◌, ◌-◌, ◌*◌, ◌/◌, Bool, true, false, not, ◌||◌, Option, none, some, List, [], ◌∷◌, ◌++◌, leb,
  nat_beq, any, select, map, is_empty, if◌then◌else◌, Text, text, strip, is_infix, Result, ok, err,
  ◌>>=◌,
}
use factory_agent.Identity.{Role, non_empty_id, from_mes_code}
use factory_agent.Authorization.{TrustedCredential}

-- Python's `int`: n, or -(n + 1).
pub data ℤ : Type 0 where
  pos negsuc : ℕ → ℤ

abbrev pub at_least_zero : ℤ → ℕ
at_least_zero (pos n) = n
at_least_zero (negsuc n) = 0

abbrev pub is_one : ℤ → Bool
is_one (pos n) = nat_beq n 1
is_one (negsuc n) = false

-- What a call may raise: the classes of the MES errors, a `ValueError`, and the budget of the run.
pub data GatewayError : Type 0 where
  unauthenticated forbidden invalid_request upstream_unavailable upstream_invalid : GatewayError
  value_error run_budget other_error : GatewayError

-- `object` tells bundles apart that `is` tells apart.
pub record MesCredentialBundle : Type 0 where
  pub object : ℕ
  pub access_token : Text
  pub app_key : Text
  pub sign : Text
  pub timestamp : ℕ
  pub expires_at : ℕ
  pub user : Text
  pub uname : Text
  pub roles : List Text
  pub permissions : List Text
  pub dept : Text
  pub bound_depts : List Text

-- `effective_bound_depts`
unfoldable pub effective_bound_depts : MesCredentialBundle → List Text
effective_bound_depts bundle =
    if not (is_empty bundle.bound_depts)
    then bundle.bound_depts
    else if not (is_empty bundle.dept)
    then bundle.dept ∷ []
    else []

-- Whole seconds; 0 when the instant is over, where the code has a number that is not positive.
abbrev pub seconds_until_expiry : MesCredentialBundle → ℕ → ℕ
seconds_until_expiry bundle now = (bundle.expires_at - now) / 1000000

unfoldable pub needs_refresh : MesCredentialBundle → ℕ → ℕ → Bool
needs_refresh bundle now threshold_seconds = leb (seconds_until_expiry bundle now) threshold_seconds

pub record ResolvedPrincipal : Type 0 where
  pub credential : TrustedCredential
  pub display_name : Text
  pub role : Role
  pub bound_dept_ids : List Text

-- The codes that are not blank, each of which has to be an identifier.
unfoldable pub dept_ids : List Text → Result GatewayError (List Text)
unfolding non_empty_id strip
dept_ids [] = ok []
dept_ids (code ∷ codes) =
    let rest = dept_ids codes in
    if is_empty (strip code) then rest else elim (non_empty_id code) [
      | none ↦ err value_error
      | some id ↦ rest >>= λ ids. ok (id ∷ ids)
    ]

-- `_principal_from_bundle`
unfoldable pub principal_with :
    MesCredentialBundle → List Text → Result GatewayError ResolvedPrincipal
unfolding effective_bound_depts dept_ids from_mes_code non_empty_id
principal_with bundle [] = err unauthenticated
principal_with bundle (code ∷ codes) = elim (from_mes_code code) [
  | none ↦ err unauthenticated
  | some role ↦ elim (dept_ids (effective_bound_depts bundle)) [
    | err raised ↦ err raised
    | ok bound ↦ elim (non_empty_id bundle.app_key) [
      | none ↦ err value_error
      | some tenant_id ↦ ok (record {
        credential = record { tenant_id = tenant_id; user_id = bundle.user };
        display_name = bundle.uname;
        role = role;
        bound_dept_ids = bound;
      })
    ]
  ]
]

unfoldable pub principal_from_bundle : MesCredentialBundle → Result GatewayError ResolvedPrincipal
unfolding principal_with
principal_from_bundle bundle = principal_with bundle bundle.roles

-- s.split(","), behind a piece that is open.
unfoldable pub split_commas : Text → Text → List Text
split_commas piece [] = piece ∷ []
split_commas piece (c ∷ s) =
    if nat_beq c 44 then piece ∷ split_commas [] s else split_commas (piece ++ c ∷ []) s

pub record CredentialBundleResponse : Type 0 where
  pub access_token : Text
  pub expires_in : ℤ
  pub expires_at : Text
  pub user : Text
  pub uname : Text
  pub dept : Text
  pub appkey : Text
  pub sign : Text
  pub timestamp : ℕ
  pub roles : List Text
  pub bound_depts : List Text
  pub manage_dept : Text
  pub permissions : List Text

-- `_bound_dept_codes`
unfoldable pub bound_dept_codes : CredentialBundleResponse → List Text
unfolding split_commas strip
bound_dept_codes result =
    let from_manage =
      select (λ part. not (is_empty part)) (map strip (split_commas [] result.manage_dept)) in
    if not (is_empty from_manage) then from_manage else result.bound_depts

-- `_parse_expiry`; `fromisoformat` answers with the instant, or `none` for the `ValueError`.
unfoldable pub parse_expiry : (Text → Option ℕ) → Text → ℤ → ℕ → ℕ
parse_expiry fromisoformat raw expires_in now =
    let late = now + at_least_zero expires_in * 1000000 in
    if is_empty raw then late else elim (fromisoformat raw) [ none ↦ late | some at ↦ at ]

-- `_bundle_from_response`, with the checks of `UserId` and of `__post_init__`.
unfoldable pub bundle_from_response :
    (Text → Option ℕ) → ℕ → CredentialBundleResponse → ℕ → Result GatewayError MesCredentialBundle
unfolding parse_expiry bound_dept_codes non_empty_id
bundle_from_response fromisoformat object result now = elim (non_empty_id result.user) [
  | none ↦ err value_error
  | some user ↦
      if is_empty result.access_token || (is_empty result.appkey || is_empty result.sign)
      then err value_error
      else ok (record {
        object = object;
        access_token = result.access_token;
        app_key = result.appkey;
        sign = result.sign;
        timestamp = result.timestamp;
        expires_at = parse_expiry fromisoformat result.expires_at result.expires_in now;
        user = user;
        uname = result.uname;
        roles = result.roles;
        permissions = result.permissions;
        dept = result.dept;
        bound_depts = bound_dept_codes result;
      })
]

abbrev pub expired_messages : List Text
expired_messages = text "请求已过期" ∷ text "签名无效" ∷ []

abbrev pub invalid_request_messages : List Text
invalid_request_messages = text "app_key不能为空" ∷ text "无效app_key" ∷ text "加密信息解析失败" ∷ []

-- src/factory_agent/data_api/hongzhao.py
unfoldable pub map_message_to_error : Text → GatewayError
unfolding is_infix
map_message_to_error message =
    if any (λ fragment. is_infix fragment message) expired_messages
    then unauthenticated
    else if any (λ fragment. is_infix fragment message) invalid_request_messages
    then invalid_request
    else upstream_invalid

-- `result` of the envelope: no object, refused by the schema (with the MES error that was raised, if
-- it was one), or valid.
pub data Payload : Type 0 where
  not_object : Payload
  refused : Option GatewayError → Payload
  valid : CredentialBundleResponse → Payload

pub data Body : Type 0 where
  not_json bad_envelope : Body
  envelope : (code : ℤ) (message : Text) (result : Payload) → Body

pub data Reply : Type 0 where
  unreachable : Reply
  replied : (status_code : ℕ) (body : Body) → Reply

unfoldable pub payload_of : Payload → Result GatewayError CredentialBundleResponse
payload_of not_object = err upstream_invalid
payload_of (refused none) = err upstream_invalid
payload_of (refused (some raised)) = err raised
payload_of (valid result) = ok result

unfoldable pub body_of : Body → Result GatewayError CredentialBundleResponse
unfolding payload_of map_message_to_error
body_of not_json = err upstream_invalid
body_of bad_envelope = err upstream_invalid
body_of (envelope code message result) =
    if is_one code then payload_of result else err (map_message_to_error message)

-- The branches of `_exchange` behind the request.
unfoldable pub received : Reply → Result GatewayError CredentialBundleResponse
unfolding body_of
received unreachable = err upstream_unavailable
received (replied status_code body) =
    if nat_beq status_code 200 then body_of body else err upstream_unavailable
