-- ===== src/Authorization/Snapshot.antt =====
-- application/authorization.py: what an authorization binds, and when it is still current.
use factory_agent.Prelude.{
  ℕ, ◌+◌, ◌≡◌, refl, sym, ap, ◌∙◌, subst, ◌↔◌, inl, inr, Bool, true, false, ◌||◌, some, List, [],
  ◌∷◌, is_empty, if◌then◌else◌, ◌==◌, ==_refl, nat_eq, list_eq, list_beq_iff, contains, set_beq,
  set_beq_iff, Text, Result, ok, err, ◌>>=◌, >>=-eq-ok, ok-injective, arith, Bool-cases,
}
use factory_agent.Identity.{owner, role_eq, role_beq_iff, TenantMembership}
use factory_agent.Authorization.{
  PortError, AuthorizationError, TrustedCredential, ResolvedAuthorization, Calls, check_membership,
  resolve_membership, current_depts, authorization, finish, proceed, authorize, matches, is_current,
  caught, membership_failed, depts_failed, bool_beq,
}

module _ (memberships : TrustedCredential → ℕ → Result PortError TenantMembership)
    (organizations : ℕ → (tenant_id employee_id : Text) → Result PortError (List Text))
    (new_version : ℕ → Text) where
  -- What an authorization binds: the three values name the credential's tenant and user, the scope
  -- holds the caller alone and is left to the MES's own filter for the owner only, and one version
  -- was issued for it.
  pub record IsBound (credential : TrustedCredential) (as_of : ℕ) (calls : Calls)
      (a : ResolvedAuthorization) (calls' : Calls) : Type 0 where
    pub identity_tenant : a.identity.tenant_id ≡ credential.tenant_id
    pub context_tenant : a.tenant_context.tenant_id ≡ credential.tenant_id
    pub scope_tenant : a.data_scope.tenant_id ≡ credential.tenant_id
    pub identity_user : a.identity.user_id ≡ credential.user_id
    pub context_user : a.tenant_context.user_id ≡ credential.user_id
    pub caller_only :
        (x : Text) → contains a.data_scope.employee_ids x ≡ (a.tenant_context.employee_id == x)
    pub owner_only : (a.data_scope.mes_filtered ≡ true) ↔ (a.tenant_context.role ≡ owner)
    pub instants : (a.tenant_context.resolved_at ≡ as_of) × (a.data_scope.evaluated_at ≡ as_of)
    pub version : a.data_scope.scope_version ≡ new_version calls.versions_issued
    pub issued : calls'.versions_issued ≡ calls.versions_issued + 1
    pub logged : calls'.bound_tenant ≡ some credential.tenant_id

  check_membership-agrees :
      (credential : TrustedCredential) (n m : TenantMembership)
      → check_membership memberships organizations new_version credential n ≡ ok m
      → (m.tenant_id ≡ credential.tenant_id) × (m.user_id ≡ credential.user_id)
  unfolding check_membership
  check_membership-agrees credential n m h =
      elim (Bool-cases (n.tenant_id == credential.tenant_id)) [
        | inr other ↦ absurd (cc (rw other at h))
        | inl t ↦ elim (Bool-cases (n.user_id == credential.user_id)) [
          | inr other ↦ absurd (cc (rw (t, other) at h))
          | inl u ↦
              let e : n ≡ m = ok-injective (rw (t, u) at h) in
              (
                ap (λ (x : TenantMembership). x.tenant_id) (sym e)
                    ∙ (list_beq_iff n.tenant_id credential.tenant_id).0 t,
                ap (λ (x : TenantMembership). x.user_id) (sym e)
                    ∙ (list_beq_iff n.user_id credential.user_id).0 u,
              )
        ]
      ]

  resolve_membership-agrees :
      (credential : TrustedCredential) (as_of : ℕ) (m : TenantMembership)
      → resolve_membership memberships organizations new_version credential as_of ≡ ok m
      → (m.tenant_id ≡ credential.tenant_id) × (m.user_id ≡ credential.user_id)
  unfolding resolve_membership
  resolve_membership-agrees credential as_of m h =
      let (n, _, checked) =
        >>=-eq-ok (caught membership_failed (memberships credential as_of)) _ h in
      check_membership-agrees credential n m checked

  -- A successful call, taken apart.
  authorize-eq-ok :
      (credential : TrustedCredential) (as_of : ℕ) (calls calls' : Calls)
      (a : ResolvedAuthorization)
      → authorize memberships organizations new_version credential as_of calls ≡ (ok a, calls')
      → (m : TenantMembership) × (depts : List Text) × (resolve_membership memberships organizations
            new_version credential as_of
          ≡ ok m)
        × (current_depts memberships organizations new_version as_of m ≡ ok depts)
        × (authorization memberships organizations new_version m depts
              (new_version calls.versions_issued)
              as_of
            ≡ a)
        × (record { versions_issued = calls.versions_issued + 1; bound_tenant = some m.tenant_id }
            ≡ calls')
  unfolding authorize
  authorize-eq-ok credential as_of calls calls' a h =
      resolved (resolve_membership memberships organizations new_version credential as_of) h
    where
      found :
          (m : TenantMembership) (r : Result AuthorizationError (List Text))
          → finish memberships organizations new_version m as_of
              (record calls { bound_tenant = some m.tenant_id })
              r
            ≡ (ok a, calls')
          → (depts : List Text) × (r ≡ ok depts)
            × (authorization memberships organizations new_version m depts
                  (new_version calls.versions_issued)
                  as_of
                ≡ a)
            × (record {
              versions_issued = calls.versions_issued + 1;
              bound_tenant = some m.tenant_id;
            }
                ≡ calls')
      found m (err e) k = cc
      found m (ok depts) k = (
        depts,
        refl,
        ok-injective (ap (λ (p : Result AuthorizationError ResolvedAuthorization × Calls). p.0) k),
        ap (λ (p : Result AuthorizationError ResolvedAuthorization × Calls). p.1) k,
      )

      resolved :
          (r : Result AuthorizationError TenantMembership)
          → proceed memberships organizations new_version as_of calls r ≡ (ok a, calls')
          → (m : TenantMembership) × (depts : List Text) × (r ≡ ok m)
            × (current_depts memberships organizations new_version as_of m ≡ ok depts)
            × (authorization memberships organizations new_version m depts
                  (new_version calls.versions_issued)
                  as_of
                ≡ a)
            × (record {
              versions_issued = calls.versions_issued + 1;
              bound_tenant = some m.tenant_id;
            }
                ≡ calls')
      resolved (err e) k = cc
      resolved (ok m) k =
          let (depts, e, built, left) =
            found m (current_depts memberships organizations new_version as_of m) k in
          (m, depts, refl, e, built, left)

  -- Every authorization is bound to the credential that asked for it.
  pub authorize-IsBound :
      (credential : TrustedCredential) (as_of : ℕ) (calls calls' : Calls)
      (a : ResolvedAuthorization)
      → authorize memberships organizations new_version credential as_of calls ≡ (ok a, calls')
      → IsBound credential as_of calls a calls'
  unfolding authorization
  authorize-IsBound credential as_of calls calls' a h =
      let (m, depts, r, f, built, left) = authorize-eq-ok credential as_of calls calls' a h in
      let (tenant, user) = resolve_membership-agrees credential as_of m r in
      subst (λ c. IsBound credential as_of calls a c) left
        (subst
          (λ x. IsBound credential as_of calls x (record {
            versions_issued = calls.versions_issued + 1;
            bound_tenant = some m.tenant_id;
          }))
          built
          (record {
            identity_tenant = tenant;
            context_tenant = tenant;
            scope_tenant = tenant;
            identity_user = user;
            context_user = user;
            caller_only = λ x. only (m.employee_id == x);
            owner_only = role_beq_iff m.role owner;
            instants = (refl, refl);
            version = refl;
            issued = refl;
            logged = ap some tenant;
          }))
    where
      only : (b : Bool) → (b || false) ≡ b
      only b = ground arith

  -- A call that fails issues no version.
  pub authorize-failed :
      (credential : TrustedCredential) (as_of : ℕ) (calls calls' : Calls) (e : AuthorizationError)
      → authorize memberships organizations new_version credential as_of calls ≡ (err e, calls')
      → calls'.versions_issued ≡ calls.versions_issued
  unfolding authorize
  authorize-failed credential as_of calls calls' e h =
      resolved (resolve_membership memberships organizations new_version credential as_of) h
    where
      found :
          (m : TenantMembership) (r : Result AuthorizationError (List Text))
          → finish memberships organizations new_version m as_of
              (record calls { bound_tenant = some m.tenant_id })
              r
            ≡ (err e, calls')
          → calls'.versions_issued ≡ calls.versions_issued
      found m (err f) k = sym (
          ap (λ (p : Result AuthorizationError ResolvedAuthorization × Calls). p.1.versions_issued)
            k)
      found m (ok depts) k =
          cc (ap (λ (p : Result AuthorizationError ResolvedAuthorization × Calls). p.0) k)

      resolved :
          (r : Result AuthorizationError TenantMembership)
          → proceed memberships organizations new_version as_of calls r ≡ (err e, calls')
          → calls'.versions_issued ≡ calls.versions_issued
      resolved (err f) k = sym (
          ap (λ (p : Result AuthorizationError ResolvedAuthorization × Calls). p.1.versions_issued)
            k)
      resolved (ok m) k = found m (current_depts memberships organizations new_version as_of m) k

  is_current_lem :
      (a : ResolvedAuthorization) (credential : TrustedCredential) (at : ℕ)
      → is_current memberships organizations new_version a credential at ≡ (
          resolve_membership memberships organizations new_version credential at >>= λ m.
          current_depts memberships organizations new_version at m >>= λ depts.
          ok (matches memberships organizations new_version a m depts))
  unfolding is_current
  is_current_lem a credential at = refl

  resolve_membership_same :
      (credential : TrustedCredential) (as_of later : ℕ)
      → memberships credential later ≡ memberships credential as_of
      → resolve_membership memberships organizations new_version credential later
        ≡ resolve_membership memberships organizations new_version credential as_of
  unfolding resolve_membership
  resolve_membership_same credential as_of later same =
      ap
        (λ (r : Result PortError TenantMembership).
          caught membership_failed r
          >>= check_membership memberships organizations new_version credential)
        same

  matches_self :
      (m : TenantMembership) (depts : List Text) (version : Text) (at : ℕ)
      → matches memberships organizations new_version
          (authorization memberships organizations new_version m depts version at)
          m
          depts
        ≡ true
  unfolding matches authorization
  matches_self m depts version at = ground (
    arith,
    ==_refl m.tenant_id,
    ==_refl m.user_id,
    ==_refl m.employee_id,
    ==_refl m.role,
    (set_beq_iff (m.employee_id ∷ []) (m.employee_id ∷ [])).1 (λ x. refl),
    (set_beq_iff depts depts).1 (λ x. refl),
    bool_beq_refl (m.role == owner),
  )
    where
      bool_beq_refl : (b : Bool) → bool_beq b b ≡ true
      bool_beq_refl true = refl
      bool_beq_refl false = refl

  -- The departments stay while the organization source gives the caller the same answer.
  current_depts_same :
      (m : TenantMembership) (as_of later : ℕ)
      → organizations later m.tenant_id m.employee_id
        ≡ organizations as_of m.tenant_id m.employee_id
      → current_depts memberships organizations new_version later m
        ≡ current_depts memberships organizations new_version as_of m
  unfolding current_depts
  current_depts_same m as_of later same =
      ap
        (λ (r : Result PortError (List Text)).
          if is_empty m.bound_dept_ids then caught depts_failed r else ok m.bound_dept_ids)
        same

  -- An authorization is current while its sources answer as they did: the check says so at every
  -- instant at which the membership source gives the credential, and the organization source the
  -- caller of the authorization, the answer that they gave when it was made.
  pub authorize-is_current :
      (credential : TrustedCredential) (as_of later : ℕ) (calls calls' : Calls)
      (a : ResolvedAuthorization)
      → authorize memberships organizations new_version credential as_of calls ≡ (ok a, calls')
      → memberships credential later ≡ memberships credential as_of
      → organizations later a.tenant_context.tenant_id a.tenant_context.employee_id
        ≡ organizations as_of a.tenant_context.tenant_id a.tenant_context.employee_id
      → is_current memberships organizations new_version a credential later ≡ ok true
  unfolding authorization
  authorize-is_current credential as_of later calls calls' a h same same_depts =
      let (m, depts, r, f, built, left) = authorize-eq-ok credential as_of calls calls' a h in
      let kept : organizations later m.tenant_id m.employee_id
          ≡ organizations as_of m.tenant_id m.employee_id =
        subst
          (λ (x : ResolvedAuthorization).
            organizations later x.tenant_context.tenant_id x.tenant_context.employee_id
            ≡ organizations as_of x.tenant_context.tenant_id x.tenant_context.employee_id)
          (sym built) same_depts in
      let fresh =
        authorization memberships organizations new_version m depts
          (new_version calls.versions_issued) as_of in
      subst (λ x. is_current memberships organizations new_version x credential later ≡ ok true)
        built
        (is_current_lem fresh credential later
          ∙ rw
              (
                resolve_membership_same credential as_of later same,
                r,
                current_depts_same m as_of later kept,
                f,
              )
              (ap ok (matches_self m depts (new_version calls.versions_issued) as_of)))

  matches-eq-true :
      (a : ResolvedAuthorization) (m : TenantMembership) (depts : List Text)
      → matches memberships organizations new_version a m depts ≡ true
      → ((m.tenant_id == a.tenant_context.tenant_id) ≡ true)
        × ((m.user_id == a.tenant_context.user_id) ≡ true)
        × ((m.employee_id == a.tenant_context.employee_id) ≡ true)
        × ((m.role == a.tenant_context.role) ≡ true)
        × (set_beq a.data_scope.employee_ids (m.employee_id ∷ []) ≡ true)
        × (set_beq a.data_scope.dept_ids depts ≡ true)
        × (bool_beq a.data_scope.mes_filtered (m.role == owner) ≡ true)
  unfolding matches
  matches-eq-true a m depts h = ground arith

  bool_beq-eq-true : (a b : Bool) → bool_beq a b ≡ true → a ≡ b
  bool_beq-eq-true true b h = sym h
  bool_beq-eq-true false true h = cc
  bool_beq-eq-true false false h = refl

  -- A check that says an authorization is current has found, at its instant, a membership and
  -- departments that agree with it: its context names the credential's tenant and user and the
  -- membership's employee and role, its scope has that employee alone and the same departments,
  -- and is left to the MES exactly for the owner.
  pub is_current-agrees :
      (a : ResolvedAuthorization) (credential : TrustedCredential) (at : ℕ)
      → is_current memberships organizations new_version a credential at ≡ ok true
      → (m : TenantMembership) × (depts : List Text) × (resolve_membership memberships organizations
            new_version credential at
          ≡ ok m)
        × (current_depts memberships organizations new_version at m ≡ ok depts)
        × (a.tenant_context.tenant_id ≡ credential.tenant_id)
        × (a.tenant_context.user_id ≡ credential.user_id)
        × (a.tenant_context.employee_id ≡ m.employee_id)
        × (a.tenant_context.role ≡ m.role)
        × (a.data_scope.mes_filtered ≡ (m.role == owner))
        × ((x : Text) → contains a.data_scope.employee_ids x ≡ contains (m.employee_id ∷ []) x)
        × ((x : Text) → contains a.data_scope.dept_ids x ≡ contains depts x)
  is_current-agrees a credential at h =
      let (m, r, h1) =
        >>=-eq-ok (resolve_membership memberships organizations new_version credential at) _
          (sym (is_current_lem a credential at) ∙ h) in
      let (depts, f, h2) =
        >>=-eq-ok (current_depts memberships organizations new_version at m) _ h1 in
      let (t, u, i, o, es, ds, f_own) = matches-eq-true a m depts (ok-injective h2) in
      let (tenant, user) = resolve_membership-agrees credential at m r in
      (
        m,
        depts,
        r,
        f,
        sym ((list_beq_iff m.tenant_id a.tenant_context.tenant_id).0 t) ∙ tenant,
        sym ((list_beq_iff m.user_id a.tenant_context.user_id).0 u) ∙ user,
        sym ((list_beq_iff m.employee_id a.tenant_context.employee_id).0 i),
        sym ((role_beq_iff m.role a.tenant_context.role).0 o),
        bool_beq-eq-true a.data_scope.mes_filtered (m.role == owner) f_own,
        (set_beq_iff a.data_scope.employee_ids (m.employee_id ∷ [])).0 es,
        (set_beq_iff a.data_scope.dept_ids depts).0 ds,
      )
