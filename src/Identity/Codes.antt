-- ===== src/Identity/Codes.antt =====
-- domain/identity.py: the MES role codes and the identifiers.
use factory_agent.Prelude.{
  ◌≡◌, refl, ap, ◌∙◌, ◌↔◌, some, ◌==◌, nat_eq, list_eq, list_beq_iff, Text, text, strip, Bool-cases,
  inl, inr,
}
use factory_agent.Identity.{
  Role, employee, group_leader, manager, owner, mes_code, role_by_mes_code, from_mes_code,
}

role_by_mes_code→code :
    (code : Text) (r : Role) → role_by_mes_code code ≡ some r → code ≡ mes_code r
unfolding role_by_mes_code mes_code
role_by_mes_code→code code r h = elim (Bool-cases (code == text "00")) [
  | inl e0 ↦ (list_beq_iff code (text "00")).0 e0 ∙ ap mes_code (name employee (rw e0 at h))
  | inr n0 ↦ elim (Bool-cases (code == text "01")) [
    | inl e1 ↦
        (list_beq_iff code (text "01")).0 e1 ∙ ap mes_code (name group_leader (rw (n0, e1) at h))
    | inr n1 ↦ elim (Bool-cases (code == text "02")) [
      | inl e2 ↦
          (list_beq_iff code (text "02")).0 e2 ∙ ap mes_code (name manager (rw (n0, n1, e2) at h))
      | inr n2 ↦ elim (Bool-cases (code == text "99")) [
        | inl e3 ↦
            (list_beq_iff code (text "99")).0 e3
            ∙ ap mes_code (name owner (rw (n0, n1, n2, e3) at h))
        | inr n3 ↦ absurd (cc (rw (n0, n1, n2, n3) at h))
      ]
    ]
  ]
]
  where
    name : (s : Role) → some s ≡ some r → s ≡ r
    name s e = cc

role_by_mes_code-mes_code : (r : Role) → role_by_mes_code (mes_code r) ≡ some r
unfolding role_by_mes_code mes_code
role_by_mes_code-mes_code employee = refl
role_by_mes_code-mes_code _ = refl

-- A code names a role exactly when it is that role's code, up to surrounding white space: no other
-- code enters.
pub from_mes_code_iff :
    (code : Text) (r : Role) → (from_mes_code code ≡ some r) ↔ (strip code ≡ mes_code r)
unfolding from_mes_code
from_mes_code_iff code r =
    (role_by_mes_code→code (strip code) r, λ e. ap role_by_mes_code e ∙ role_by_mes_code-mes_code r)
