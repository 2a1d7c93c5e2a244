-- ===== src/Registry/Ranking.antt =====
-- llm/registry.py: how `with_demoted_endpoints` orders the deployments of an alias.
use mathlib.Core.List.Perm
use mathlib.Core.List.{Perm}
use factory_agent.Prelude.{
  ℕ, ◌+◌, ◌++◌, map, refl, ap, ◌==◌, ◌∙◌, subst, sym, is_empty, ◌≡◌, true, false, List, [], ◌∷◌,
  nat_eq, list_eq, Text, arith, Bool-cases, inl, inr,
}
use factory_agent.Registry.{
  ResolvedDeployment, key_le, rank_insert, ranked, renumbered, Group, add_member, grouped_from,
  reorder, reorders, with_demoted_endpoints, ModelRegistry,
}

-- A deployment without its priority.
abbrev pub unranked : ResolvedDeployment → ResolvedDeployment
unranked d = record d { priority = 0 }

-- Every deployment of `es` comes after `d` in the order of the key.
abbrev pub IsBefore : List Text → ResolvedDeployment → List ResolvedDeployment → Type 0
IsBefore demoted d [] = Unit
IsBefore demoted d (e ∷ es) = (key_le demoted d e ≡ true) × IsBefore demoted d es

abbrev pub IsRanked : List Text → List ResolvedDeployment → Type 0
IsRanked demoted [] = Unit
IsRanked demoted (d ∷ ds) = IsBefore demoted d ds × IsRanked demoted ds

key_le_total :
    (demoted : List Text) (d e : ResolvedDeployment)
    → key_le demoted d e ≡ false
    → key_le demoted e d ≡ true
unfolding key_le
key_le_total demoted d e h = ground arith

key_le_trans :
    (demoted : List Text) (d e f : ResolvedDeployment)
    → key_le demoted d e ≡ true
    → key_le demoted e f ≡ true
    → key_le demoted d f ≡ true
unfolding key_le
key_le_trans demoted d e f h k = ground arith

IsBefore-trans :
    (demoted : List Text) (d e : ResolvedDeployment) (es : List ResolvedDeployment)
    → key_le demoted d e ≡ true
    → IsBefore demoted e es
    → IsBefore demoted d es
IsBefore-trans demoted d e [] h b = tt
IsBefore-trans demoted d e (f ∷ es) h b =
    (key_le_trans demoted d e f h b.0, IsBefore-trans demoted d e es h b.1)

IsBefore-rank_insert :
    (demoted : List Text) (c d : ResolvedDeployment) (es : List ResolvedDeployment)
    → key_le demoted c d ≡ true
    → IsBefore demoted c es
    → IsBefore demoted c (rank_insert demoted d es)
unfolding rank_insert
IsBefore-rank_insert demoted c d [] h b = (h, tt)
IsBefore-rank_insert demoted c d (e ∷ es) h b = elim (Bool-cases (key_le demoted d e)) [
  | inl k ↦ rw k (h, b)
  | inr k ↦ rw k (b.0, IsBefore-rank_insert demoted c d es h b.1)
]

rank_insert-IsRanked :
    (demoted : List Text) (d : ResolvedDeployment) (es : List ResolvedDeployment)
    → IsRanked demoted es
    → IsRanked demoted (rank_insert demoted d es)
unfolding rank_insert
rank_insert-IsRanked demoted d [] r = (tt, tt)
rank_insert-IsRanked demoted d (e ∷ es) r = elim (Bool-cases (key_le demoted d e)) [
  | inl k ↦ rw k ((k, IsBefore-trans demoted d e es k r.0), r)
  | inr k ↦ rw k (
    IsBefore-rank_insert demoted e d es (key_le_total demoted d e k) r.0,
    rank_insert-IsRanked demoted d es r.1,
  )
]

pub ranked-IsRanked :
    (demoted : List Text) (ds : List ResolvedDeployment) → IsRanked demoted (ranked demoted ds)
unfolding ranked
ranked-IsRanked demoted [] = tt
ranked-IsRanked demoted (d ∷ ds) =
    rank_insert-IsRanked demoted d (ranked demoted ds) (ranked-IsRanked demoted ds)

rank_insert-perm :
    (demoted : List Text) (d : ResolvedDeployment) (es : List ResolvedDeployment)
    → Perm (rank_insert demoted d es) (d ∷ es)
unfolding rank_insert
rank_insert-perm demoted d [] = Perm.refl _
rank_insert-perm demoted d (e ∷ es) = elim (Bool-cases (key_le demoted d e)) [
  | inl k ↦ rw k (Perm.refl _)
  | inr k ↦ rw k (Perm.trans (Perm.cons e (rank_insert-perm demoted d es)) (Perm.swap d e es))
]

pub ranked-perm : (demoted : List Text) (ds : List ResolvedDeployment) → Perm (ranked demoted ds) ds
unfolding ranked
ranked-perm demoted [] = Perm.refl _
ranked-perm demoted (d ∷ ds) =
    Perm.trans (rank_insert-perm demoted d (ranked demoted ds))
      (Perm.cons d (ranked-perm demoted ds))

pub map-unranked-renumbered :
    (n : ℕ) (ds : List ResolvedDeployment) → map unranked (renumbered n ds) ≡ map unranked ds
unfolding renumbered
map-unranked-renumbered n [] = refl
map-unranked-renumbered n (d ∷ ds) = ap (λ es. unranked d ∷ es) (map-unranked-renumbered (n + 1) ds)

-- The deployments of all groups.
abbrev members : List Group → List ResolvedDeployment
members [] = []
members ((a, ds) ∷ gs) = ds ++ members gs

map-append :
    (ds es : List ResolvedDeployment) → map unranked (ds ++ es) ≡ map unranked ds ++ map unranked es
map-append [] es = refl
map-append (d ∷ ds) es = ap (λ fs. unranked d ∷ fs) (map-append ds es)

snoc-append :
    (ds es : List ResolvedDeployment) (d : ResolvedDeployment)
    → Perm ((ds ++ d ∷ []) ++ es) (d ∷ (ds ++ es))
snoc-append [] es d = Perm.refl _
snoc-append (e ∷ ds) es d =
    Perm.trans (Perm.cons e (snoc-append ds es d)) (Perm.swap d e (ds ++ es))

middle-perm :
    (d : ResolvedDeployment) (ds es : List ResolvedDeployment)
    → Perm (ds ++ d ∷ es) (d ∷ (ds ++ es))
middle-perm d [] es = Perm.refl _
middle-perm d (e ∷ ds) es =
    Perm.trans (Perm.cons e (middle-perm d ds es)) (Perm.swap d e (ds ++ es))

add_member-perm :
    (d : ResolvedDeployment) (gs : List Group) → Perm (members (add_member d gs)) (d ∷ members gs)
unfolding add_member
add_member-perm d [] = Perm.refl _
add_member-perm d ((a, ds) ∷ gs) = elim (Bool-cases (a == d.alias)) [
  | inl same ↦ rw same (snoc-append ds (members gs) d)
  | inr other ↦
      rw other
        (Perm.trans (Perm.append_left ds (add_member-perm d gs)) (middle-perm d ds (members gs)))
]

grouped_from-perm :
    (gs : List Group) (ds : List ResolvedDeployment)
    → Perm (members (grouped_from gs ds)) (ds ++ members gs)
unfolding grouped_from
grouped_from-perm gs [] = Perm.refl _
grouped_from-perm gs (d ∷ ds) =
    Perm.trans (grouped_from-perm (add_member d gs) ds)
      (Perm.trans (Perm.append_left ds (add_member-perm d gs)) (middle-perm d ds (members gs)))

map-unranked-reorder :
    (demoted : List Text) (gs : List Group)
    → Perm (map unranked (reorder demoted gs)) (map unranked (members gs))
unfolding reorder
map-unranked-reorder demoted [] = Perm.refl _
map-unranked-reorder demoted ((a, ds) ∷ gs) =
    subst (λ x. Perm x (map unranked (ds ++ members gs)))
      (sym (
        map-append (renumbered 1 (ranked demoted ds)) (reorder demoted gs)
        ∙ ap (λ x. x ++ map unranked (reorder demoted gs))
            (map-unranked-renumbered 1 (ranked demoted ds))))
      (subst (Perm (map unranked (ranked demoted ds) ++ map unranked (reorder demoted gs)))
        (sym (map-append ds (members gs)))
        (Perm.append (Perm.map unranked (ranked-perm demoted ds))
          (map-unranked-reorder demoted gs)))

pub append-nil : (ds : List ResolvedDeployment) → ds ++ [] ≡ ds
append-nil [] = refl
append-nil (d ∷ ds) = ap (λ es. d ∷ es) (append-nil ds)

-- The table under any demoted endpoints has the deployments of the table, each as often as before,
-- changed in their order and their priorities at most.
pub with_demoted_endpoints-perm :
    (r : ModelRegistry) (demoted : List Text)
    → Perm
        (map unranked (with_demoted_endpoints r demoted).deployments)
        (map unranked r.deployments)
unfolding with_demoted_endpoints
with_demoted_endpoints-perm r demoted = elim (Bool-cases (is_empty demoted)) [
  | inl nobody ↦ rw nobody (Perm.refl _)
  | inr somebody ↦ elim (Bool-cases (reorders demoted (grouped_from [] r.deployments))) [
    | inl changed ↦
        rw (somebody, changed)
          (Perm.trans (map-unranked-reorder demoted (grouped_from [] r.deployments)) (
            Perm.map unranked (
              subst (Perm (members (grouped_from [] r.deployments))) (append-nil r.deployments)
                (grouped_from-perm [] r.deployments))))
    | inr same ↦ rw (somebody, same) (Perm.refl _)
  ]
]
