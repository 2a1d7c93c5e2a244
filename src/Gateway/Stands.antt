-- ===== src/Gateway/Stands.antt =====
-- src/factory_agent/data_api/token_gateway.py: whom `_principal_from_bundle` names.
use factory_agent.Prelude.{
  ◌≡◌, refl, sym, ap, ◌∙◌, inl, inr, not, ◌||◌, Option, none, some, List, [], ◌∷◌, ◌==◌, nat_eq,
  list_eq, pair_eq, is_empty, Text, strip, Result, ok, err, Bool-cases,
}
use factory_agent.Identity.{Role, non_empty_id, from_mes_code}
use factory_agent.Gateway.{
  MesCredentialBundle, effective_bound_depts, ResolvedPrincipal, principal_with, dept_ids,
  principal_from_bundle, GatewayError, unauthenticated, value_error,
}
use factory_agent.Gateway.Exchange.{identity_key}

-- The principal is the one that the bundle stands for.
abbrev pub StandsFor : MesCredentialBundle → ResolvedPrincipal → Type 0
StandsFor bundle principal = principal_from_bundle bundle ≡ ok principal

pub non_empty_id-some : (value id : Text) → non_empty_id value ≡ some id → value ≡ id
unfolding non_empty_id
non_empty_id-some value id h = elim (Bool-cases (is_empty value || not (value == strip value))) [
  | inl bad ↦ let found : ◌≡◌ {A = Option Text} none (some id) = rw bad at h in cc
  | inr good ↦ let found : ◌≡◌ {A = Option Text} (some value) (some id) = rw good at h in cc
]

pub StandsFor-credential :
    (bundle : MesCredentialBundle) (principal : ResolvedPrincipal)
    → StandsFor bundle principal
    → identity_key principal.credential ≡ (bundle.app_key, bundle.user)
unfolding principal_from_bundle principal_with
StandsFor-credential bundle principal h = roles_of bundle.roles h
  where
    tenant :
        (role : Role) (bound : List Text) (o : Option Text)
        → non_empty_id bundle.app_key ≡ o
        → ◌≡◌ {A = Result GatewayError ResolvedPrincipal}
            (elim o [
              | none ↦ err value_error
              | some tenant_id ↦ ok (record {
                credential = record { tenant_id = tenant_id; user_id = bundle.user };
                display_name = bundle.uname;
                role = role;
                bound_dept_ids = bound;
              })
            ])
            (ok principal)
        → identity_key principal.credential ≡ (bundle.app_key, bundle.user)
    tenant role bound none e f = cc
    tenant role bound (some tenant_id) e f =
        ap
          (λ r. elim r [ err x ↦ (bundle.app_key, bundle.user) | ok p ↦ identity_key p.credential ])
          (sym f)
        ∙ ap (λ t. (t, bundle.user)) (sym (non_empty_id-some bundle.app_key tenant_id e))

    bound_of :
        (role : Role) (r : Result GatewayError (List Text))
        → ◌≡◌ {A = Result GatewayError ResolvedPrincipal}
            (elim r [
              | err raised ↦ err raised
              | ok bound ↦ elim (non_empty_id bundle.app_key) [
                | none ↦ err value_error
                | some tenant_id ↦ ok (record {
                  credential = record { tenant_id = tenant_id; user_id = bundle.user };
                  display_name = bundle.uname;
                  role = role;
                  bound_dept_ids = bound;
                })
              ]
            ])
            (ok principal)
        → identity_key principal.credential ≡ (bundle.app_key, bundle.user)
    bound_of role (err raised) f = cc
    bound_of role (ok bound) f = tenant role bound (non_empty_id bundle.app_key) refl f

    role_of :
        (o : Option Role)
        → ◌≡◌ {A = Result GatewayError ResolvedPrincipal}
            (elim o [
              | none ↦ err unauthenticated
              | some role ↦ elim (dept_ids (effective_bound_depts bundle)) [
                | err raised ↦ err raised
                | ok bound ↦ elim (non_empty_id bundle.app_key) [
                  | none ↦ err value_error
                  | some tenant_id ↦ ok (record {
                    credential = record { tenant_id = tenant_id; user_id = bundle.user };
                    display_name = bundle.uname;
                    role = role;
                    bound_dept_ids = bound;
                  })
                ]
              ]
            ])
            (ok principal)
        → identity_key principal.credential ≡ (bundle.app_key, bundle.user)
    role_of none f = cc
    role_of (some role) f = bound_of role (dept_ids (effective_bound_depts bundle)) f

    roles_of :
        (roles : List Text)
        → principal_with bundle roles ≡ ok principal
        → identity_key principal.credential ≡ (bundle.app_key, bundle.user)
    roles_of [] f = cc
    roles_of (code ∷ codes) f = role_of (from_mes_code code) f
