-- ===== src/Registry/Groups.antt =====
-- llm/registry.py: what the groups of `with_demoted_endpoints` hold.
use factory_agent.Prelude.{
  ℕ, ◌+◌, ◌≡◌, refl, sym, ap, ap₂, subst, ◌∙◌, ◌⊎◌, inl, inr, true, false, List, [], ◌∷◌, ◌++◌,
  select, if◌then◌else◌, ◌==◌, nat_eq, list_eq, list_beq_iff, Text, arith, Bool-cases,
}
use factory_agent.Registry.{
  ResolvedDeployment, Group, add_member, grouped_from, rank_insert, key_le, ranked, renumbered,
  renumbers, reorder, reorders,
}
use factory_agent.Registry.Ranking.{append-nil}

-- The deployments of an alias.
abbrev pub deployments_of : Text → List ResolvedDeployment → List ResolvedDeployment
deployments_of alias = select (λ d. d.alias == alias)

-- The first group of an alias.
abbrev pub members_of : Text → List Group → List ResolvedDeployment
members_of x [] = []
members_of x ((a, ds) ∷ gs) = if a == x then ds else members_of x gs

members_of-add_member :
    (x : Text) (d : ResolvedDeployment) (gs : List Group)
    → members_of x (add_member d gs)
      ≡ (if d.alias == x then members_of x gs ++ d ∷ [] else members_of x gs)
unfolding add_member
members_of-add_member x d [] = refl
members_of-add_member x d ((a, ds) ∷ gs) = elim (Bool-cases (a == d.alias)) [
  | inl same ↦
      let e = (list_beq_iff a d.alias).0 same in
      elim (Bool-cases (a == x)) [
        | inl here ↦ rw (same, here, sym (ap (λ y. y == x) e) ∙ here) refl
        | inr there ↦ rw (same, there, sym (ap (λ y. y == x) e) ∙ there) refl
      ]
  | inr other ↦ elim (Bool-cases (a == x)) [
    | inl here ↦
        let apart : (d.alias == x) ≡ false = absent other here (Bool-cases (d.alias == x)) in
        rw (other, here, apart) refl
    | inr there ↦ rw (other, there) (members_of-add_member x d gs)
  ]
]
  where
    absent :
        (a == d.alias) ≡ false
        → (a == x) ≡ true
        → ((d.alias == x) ≡ true) ⊎ ((d.alias == x) ≡ false)
        → (d.alias == x) ≡ false
    absent other here (inr no_match) = no_match
    absent other here (inl match) =
        let same =
          (list_beq_iff a d.alias).1
            ((list_beq_iff a x).0 here ∙ sym ((list_beq_iff d.alias x).0 match)) in
        absurd (cc (same, other))

append_assoc : (ds es fs : List ResolvedDeployment) → (ds ++ es) ++ fs ≡ ds ++ (es ++ fs)
append_assoc [] es fs = refl
append_assoc (d ∷ ds) es fs = ap (λ t. d ∷ t) (append_assoc ds es fs)

-- Grouping gathers the deployments of an alias in the order of the table.
pub members_of-grouped_from :
    (x : Text) (gs : List Group) (ds : List ResolvedDeployment)
    → members_of x (grouped_from gs ds) ≡ members_of x gs ++ deployments_of x ds
unfolding grouped_from
members_of-grouped_from x gs [] = sym (append-nil (members_of x gs))
members_of-grouped_from x gs (d ∷ ds) =
    members_of-grouped_from x (add_member d gs) ds
    ∙ ap (λ t. t ++ deployments_of x ds) (members_of-add_member x d gs)
    ∙ elim (Bool-cases (d.alias == x)) [
      | inl here ↦ rw here (append_assoc (members_of x gs) (d ∷ []) (deployments_of x ds))
      | inr there ↦ rw there refl
    ]

-- The deployments are all of the alias.
abbrev pub HaveAlias : Text → List ResolvedDeployment → Type 0
HaveAlias a [] = Unit
HaveAlias a (d ∷ ds) = (d.alias ≡ a) × HaveAlias a ds

-- No group is of the alias.
abbrev pub IsAbsent : Text → List Group → Type 0
IsAbsent a [] = Unit
IsAbsent a ((b, ds) ∷ gs) = ((b == a) ≡ false) × IsAbsent a gs

-- Each group has deployments of its alias, and no later group has the same alias.
abbrev pub IsGrouped : List Group → Type 0
IsGrouped [] = Unit
IsGrouped ((a, ds) ∷ gs) = HaveAlias a ds × IsAbsent a gs × IsGrouped gs

HaveAlias-append :
    (a : Text) (ds : List ResolvedDeployment) (d : ResolvedDeployment)
    → HaveAlias a ds
    → d.alias ≡ a
    → HaveAlias a (ds ++ d ∷ [])
HaveAlias-append a [] d h e = (e, tt)
HaveAlias-append a (c ∷ ds) d h e = (h.0, HaveAlias-append a ds d h.1 e)

==_sym_false : (a b : Text) → (a == b) ≡ false → (b == a) ≡ false
==_sym_false a b h = either (Bool-cases (b == a))
  where
    either : ((b == a) ≡ true) ⊎ ((b == a) ≡ false) → (b == a) ≡ false
    either (inr no_match) = no_match
    either (inl match) = absurd (cc ((list_beq_iff a b).1 (sym ((list_beq_iff b a).0 match)), h))

IsAbsent-add_member :
    (a : Text) (d : ResolvedDeployment) (gs : List Group)
    → (d.alias == a) ≡ false
    → IsAbsent a gs
    → IsAbsent a (add_member d gs)
unfolding add_member
IsAbsent-add_member a d [] other h = (other, tt)
IsAbsent-add_member a d ((b, ds) ∷ gs) other h = elim (Bool-cases (b == d.alias)) [
  | inl same ↦ rw same h
  | inr apart ↦ rw apart (h.0, IsAbsent-add_member a d gs other h.1)
]

add_member-IsGrouped :
    (d : ResolvedDeployment) (gs : List Group) → IsGrouped gs → IsGrouped (add_member d gs)
unfolding add_member
add_member-IsGrouped d [] h = ((refl, tt), tt, tt)
add_member-IsGrouped d ((a, ds) ∷ gs) h = elim (Bool-cases (a == d.alias)) [
  | inl same ↦
      rw same (HaveAlias-append a ds d h.0 (sym ((list_beq_iff a d.alias).0 same)), h.1, h.2)
  | inr other ↦ rw other (
    h.0,
    IsAbsent-add_member a d gs (==_sym_false a d.alias other) h.1,
    add_member-IsGrouped d gs h.2,
  )
]

pub grouped_from-IsGrouped :
    (gs : List Group) (ds : List ResolvedDeployment) → IsGrouped gs → IsGrouped (grouped_from gs ds)
unfolding grouped_from
grouped_from-IsGrouped gs [] h = h
grouped_from-IsGrouped gs (d ∷ ds) h =
    grouped_from-IsGrouped (add_member d gs) ds (add_member-IsGrouped d gs h)

rank_insert-HaveAlias :
    (demoted : List Text) (a : Text) (d : ResolvedDeployment) (ds : List ResolvedDeployment)
    → d.alias ≡ a
    → HaveAlias a ds
    → HaveAlias a (rank_insert demoted d ds)
unfolding rank_insert
rank_insert-HaveAlias demoted a d [] e h = (e, tt)
rank_insert-HaveAlias demoted a d (c ∷ ds) e h = elim (Bool-cases (key_le demoted d c)) [
  | inl first ↦ rw first (e, h)
  | inr later ↦ rw later (h.0, rank_insert-HaveAlias demoted a d ds e h.1)
]

ranked-HaveAlias :
    (demoted : List Text) (a : Text) (ds : List ResolvedDeployment)
    → HaveAlias a ds
    → HaveAlias a (ranked demoted ds)
unfolding ranked
ranked-HaveAlias demoted a [] h = tt
ranked-HaveAlias demoted a (d ∷ ds) h =
    rank_insert-HaveAlias demoted a d (ranked demoted ds) h.0 (ranked-HaveAlias demoted a ds h.1)

renumbered-HaveAlias :
    (a : Text) (n : ℕ) (ds : List ResolvedDeployment)
    → HaveAlias a ds
    → HaveAlias a (renumbered n ds)
unfolding renumbered
renumbered-HaveAlias a n [] h = tt
renumbered-HaveAlias a n (d ∷ ds) h = (h.0, renumbered-HaveAlias a (n + 1) ds h.1)

deployments_of-append :
    (x : Text) (ds es : List ResolvedDeployment)
    → deployments_of x (ds ++ es) ≡ deployments_of x ds ++ deployments_of x es
deployments_of-append x [] es = refl
deployments_of-append x (d ∷ ds) es = elim (Bool-cases (d.alias == x)) [
  | inl here ↦ rw here (ap (λ t. d ∷ t) (deployments_of-append x ds es))
  | inr there ↦ rw there (deployments_of-append x ds es)
]

deployments_of_all :
    (x a : Text) (ds : List ResolvedDeployment)
    → HaveAlias a ds
    → deployments_of x ds ≡ (if a == x then ds else [])
deployments_of_all x a [] h = ground arith
deployments_of_all x a (d ∷ ds) h = elim (Bool-cases (a == x)) [
  | inl here ↦
      rw (ap (λ y. y == x) h.0 ∙ here, here)
        (ap (λ t. d ∷ t) (deployments_of_all x a ds h.1 ∙ rw here refl))
  | inr there ↦
      rw (ap (λ y. y == x) h.0 ∙ there, there) (deployments_of_all x a ds h.1 ∙ rw there refl)
]

-- The reordered members of one group, among the deployments of an alias.
group-deployments_of :
    (demoted : List Text) (x a : Text) (ds : List ResolvedDeployment)
    → HaveAlias a ds
    → deployments_of x (renumbered 1 (ranked demoted ds))
      ≡ (if a == x then renumbered 1 (ranked demoted ds) else [])
group-deployments_of demoted x a ds h =
    deployments_of_all x a (renumbered 1 (ranked demoted ds))
      (renumbered-HaveAlias a 1 (ranked demoted ds) (ranked-HaveAlias demoted a ds h))

members_of_absent : (x : Text) (gs : List Group) → IsAbsent x gs → members_of x gs ≡ []
members_of_absent x [] h = refl
members_of_absent x ((a, ds) ∷ gs) h = rw h.0 (members_of_absent x gs h.1)

renumbered_none : (demoted : List Text) → [] ≡ renumbered 1 (ranked demoted [])
unfolding renumbered ranked
renumbered_none demoted = refl

renumbers_none : (demoted : List Text) → renumbers 1 (ranked demoted []) ≡ false
unfolding renumbers ranked
renumbers_none demoted = refl

-- The reordered table has for an alias the reordered members of its one group.
pub deployments_of-reorder :
    (demoted : List Text) (x : Text) (gs : List Group)
    → IsGrouped gs
    → deployments_of x (reorder demoted gs) ≡ renumbered 1 (ranked demoted (members_of x gs))
unfolding reorder
deployments_of-reorder demoted x [] h = renumbered_none demoted
deployments_of-reorder demoted x ((a, ds) ∷ gs) h =
    deployments_of-append x (renumbered 1 (ranked demoted ds)) (reorder demoted gs)
    ∙ ap₂ (λ l r. l ++ r) (group-deployments_of demoted x a ds h.0)
        (deployments_of-reorder demoted x gs h.2)
    ∙ elim (Bool-cases (a == x)) [
      | inl here ↦
          let gone =
            members_of_absent x gs (subst (λ y. IsAbsent y gs) ((list_beq_iff a x).0 here) h.1) in
          rw (here, gone) (append-nil (renumbered 1 (ranked demoted ds)))
      | inr there ↦ rw there refl
    ]

-- A table that is not reordered has no alias whose ranking would give other priorities.
pub renumbers-members_of :
    (demoted : List Text) (x : Text) (gs : List Group)
    → reorders demoted gs ≡ false
    → renumbers 1 (ranked demoted (members_of x gs)) ≡ false
unfolding reorders
renumbers-members_of demoted x [] h = renumbers_none demoted
renumbers-members_of demoted x ((a, ds) ∷ gs) h = elim (Bool-cases (a == x)) [
  | inl here ↦ rw here (ground arith)
  | inr there ↦ rw there (renumbers-members_of demoted x gs (ground arith))
]
