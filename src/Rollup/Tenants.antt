-- ===== src/Rollup/Tenants.antt =====
-- src/factory_agent/application/rollup.py: the rows of a tenant come from the tenant's own facts.
use factory_agent.Prelude.{
  ℕ, ◌≡◌, refl, sym, ap, ap₂, subst, ◌∙◌, inl, inr, Bool, true, false, ◌||◌, Option, none, some,
  List, [], ◌∷◌, ◌++◌, all, leb, select, is_empty, length, if◌then◌else◌, ◌==◌, nat_eq, list_eq,
  list_beq_iff, Text, Bool-cases,
}
use factory_agent.Rollup.{Metrics, Granularity, hour, day, Buckets, compute_bucket_metrics}
use factory_agent.Rollup.Range.{
  RollupRow, RollupRun, Facts, own, bucket_rows, rows_of, computed, Gathered, gathered, gather,
  empty, rollup_range,
}

-- The rows of a tenant among those written.
abbrev pub tenant_rows : Text → List RollupRow → List RollupRow
tenant_rows tenant rows = select (λ row. row.tenant_id == tenant) rows

tenant_rows-append :
    (t : Text) (xs ys : List RollupRow)
    → tenant_rows t (xs ++ ys) ≡ tenant_rows t xs ++ tenant_rows t ys
tenant_rows-append t [] ys = refl
tenant_rows-append t (x ∷ xs) ys = elim (Bool-cases (x.tenant_id == t)) [
  | inl here ↦ rw here (ap (λ rows. x ∷ rows) (tenant_rows-append t xs ys))
  | inr there ↦ rw there (tenant_rows-append t xs ys)
]

bucket_rows-other :
    (t u : Text) (bucket : ℕ) (metrics : Metrics) (version : Text) (now : ℕ) (g : Granularity)
    → (u == t) ≡ false
    → tenant_rows t (bucket_rows u bucket metrics version now g) ≡ []
bucket_rows-other t u bucket [] version now g h = refl
bucket_rows-other t u bucket ((name, n) ∷ metrics) version now g h =
    rw h (bucket_rows-other t u bucket metrics version now g h)

rows_of-other :
    (t u : Text) (buckets : Buckets) (version : Text) (now : ℕ) (g : Granularity)
    → (u == t) ≡ false
    → tenant_rows t (rows_of u buckets version now g) ≡ []
rows_of-other t u [] version now g h = refl
rows_of-other t u ((bucket, metrics) ∷ buckets) version now g h =
    tenant_rows-append t (bucket_rows u bucket metrics version now g)
      (rows_of u buckets version now g)
    ∙ ap₂ (λ a b. a ++ b) (bucket_rows-other t u bucket metrics version now g h)
        (rows_of-other t u buckets version now g h)

-- A tenant that is gathered had both its metrics computed.
pub gather-step :
    (tenant : Text) (tenants : List Text) (facts : Facts) (categories : List (Text × Text))
    (version : Text) (now : ℕ) (old new : Gathered)
    → gather (tenant ∷ tenants) facts categories version now old ≡ some new
    → (hourly : Buckets) × (daily : Buckets) × (computed tenant facts categories hour ≡ some hourly)
      × (computed tenant facts categories day ≡ some daily)
      × (gather tenants facts categories version now (gathered tenant hourly daily version now old)
          ≡ some new)
unfolding gather
gather-step tenant tenants facts categories version now old new h =
    go (computed tenant facts categories hour) (computed tenant facts categories day) refl refl h
  where
    go :
        (a b : Option Buckets)
        → computed tenant facts categories hour ≡ a
        → computed tenant facts categories day ≡ b
        → ◌≡◌ {A = Option Gathered}
            (elim a [
              | none ↦ none
              | some hourly ↦ elim b [
                | none ↦ none
                | some daily ↦
                    gather tenants facts categories version now
                      (gathered tenant hourly daily version now old)
              ]
            ])
            (some new)
        → (hourly : Buckets) × (daily : Buckets) × (computed tenant facts categories hour
            ≡ some hourly)
          × (computed tenant facts categories day ≡ some daily)
          × (gather tenants facts categories version now
                (gathered tenant hourly daily version now old)
              ≡ some new)
    go none b ea eb e = cc
    go (some hourly) none ea eb e = cc
    go (some hourly) (some daily) ea eb e = (hourly, daily, ea, eb, e)

gathered-rows :
    (t u : Text) (hourly daily hourly' daily' : Buckets) (version : Text) (now : ℕ)
    (old old' : Gathered)
    → ((u == t) ≡ true → (hourly ≡ hourly') × (daily ≡ daily'))
    → tenant_rows t old.rows ≡ tenant_rows t old'.rows
    → tenant_rows t (gathered u hourly daily version now old).rows
      ≡ tenant_rows t (gathered u hourly' daily' version now old').rows
unfolding gathered
gathered-rows t u hourly daily hourly' daily' version now old old' same h =
    tenant_rows-append t old.rows _
    ∙ ap₂ (λ a b. a ++ b) h
        (elim (Bool-cases (u == t)) [
          | inl here ↦
              let (eh, ed) = same here in
              ap₂
                (λ a b. tenant_rows t (rows_of u a version now hour ++ rows_of u b version now day))
                eh ed
          | inr there ↦ none_of hourly daily there ∙ sym (none_of hourly' daily' there)
        ])
    ∙ sym (tenant_rows-append t old'.rows _)
  where
    none_of :
        (a b : Buckets)
        → (u == t) ≡ false
        → tenant_rows t (rows_of u a version now hour ++ rows_of u b version now day) ≡ []
    none_of a b other =
        tenant_rows-append t (rows_of u a version now hour) (rows_of u b version now day)
        ∙ ap₂ (λ x y. x ++ y) (rows_of-other t u a version now hour other)
            (rows_of-other t u b version now day other)

computed-own :
    (t u : Text) (facts facts' : Facts) (categories : List (Text × Text)) (g : Granularity)
    (buckets buckets' : Buckets)
    → own t facts ≡ own t facts'
    → (u == t) ≡ true
    → computed u facts categories g ≡ some buckets
    → computed u facts' categories g ≡ some buckets'
    → buckets ≡ buckets'
unfolding computed
computed-own t u facts facts' categories g buckets buckets' same here e e' =
    let ut : u ≡ t = (list_beq_iff u t).0 here in
    let mine : own u facts ≡ own u facts' = subst (λ x. own x facts ≡ own x facts') (sym ut) same in
    let equal : ◌≡◌ {A = Option Buckets} (some buckets) (some buckets') =
      sym e ∙ ap (λ o. compute_bucket_metrics o.interactions o.llm o.mes categories g) mine ∙ e' in
    cc

gather-own :
    (t : Text) (tenants : List Text) (facts facts' : Facts) (categories : List (Text × Text))
    (version : Text) (now : ℕ) (old old' new new' : Gathered)
    → own t facts ≡ own t facts'
    → gather tenants facts categories version now old ≡ some new
    → gather tenants facts' categories version now old' ≡ some new'
    → tenant_rows t old.rows ≡ tenant_rows t old'.rows
    → tenant_rows t new.rows ≡ tenant_rows t new'.rows
unfolding gather
gather-own t [] facts facts' categories version now old old' new new' same e e' h =
    let a : old ≡ new = cc in
    let b : old' ≡ new' = cc in
    ap (λ x. tenant_rows t x.rows) (sym a) ∙ h ∙ ap (λ x. tenant_rows t x.rows) b
gather-own t (u ∷ tenants) facts facts' categories version now old old' new new' same e e' h =
    let (hourly, daily, ch, cd, rest) =
      gather-step u tenants facts categories version now old new e in
    let (hourly', daily', ch', cd', rest') =
      gather-step u tenants facts' categories version now old' new' e' in
    gather-own t tenants facts facts' categories version now _ _ new new' same rest rest' (
      gathered-rows t u hourly daily hourly' daily' version now old old'
        (λ here. (
          computed-own t u facts facts' categories hour hourly hourly' same here ch ch',
          computed-own t u facts facts' categories day daily daily' same here cd cd',
        ))
        h)

-- The rows given to the store.
abbrev pub written : Option (List RollupRow) → List RollupRow
written none = []
written (some rows) = rows

-- The facts that carry the tenant's name are the same.
abbrev pub AgreeOn : Text → Facts → Facts → Type 0
AgreeOn t facts facts' =
    (select (λ f. f.tenant_id == t) facts.interactions
      ≡ select (λ f. f.tenant_id == t) facts'.interactions)
    × (select (λ f. f.tenant_id == t) facts.llm ≡ select (λ f. f.tenant_id == t) facts'.llm)
    × (select (λ f. f.tenant_id == t) facts.mes ≡ select (λ f. f.tenant_id == t) facts'.mes)

own-AgreeOn :
    (t : Text) (facts facts' : Facts) → AgreeOn t facts facts' → own t facts ≡ own t facts'
unfolding own
own-AgreeOn t facts facts' (i, l, m) = rw (i, l, m) refl

-- When two runs over the same tenants, window and categories, at the same time, return, and the facts
-- listed are the same for one tenant, then the rows written for that tenant are the same, whatever the
-- facts of the other tenants are.
pub rollup_range-own :
    (t : Text) (list_facts list_facts' : List Text → ℕ → ℕ → Facts)
    (categories : List (Text × Text)) (version : Text) (now : ℕ) (tenant_ids : List Text)
    (start end : ℕ) (run run' : RollupRun) (rows rows' : Option (List RollupRow))
    → AgreeOn t (list_facts tenant_ids start end) (list_facts' tenant_ids start end)
    → rollup_range list_facts categories version now tenant_ids start end ≡ some (run, rows)
    → rollup_range list_facts' categories version now tenant_ids start end ≡ some (run', rows')
    → tenant_rows t (written rows) ≡ tenant_rows t (written rows')
unfolding rollup_range
rollup_range-own t list_facts list_facts' categories version now tenant_ids start end run run' rows
      rows' same h h' =
    go (is_empty tenant_ids || leb end start)
      (gather tenant_ids (list_facts tenant_ids start end) categories version now empty)
      (gather tenant_ids (list_facts' tenant_ids start end) categories version now empty) refl refl
      h h'
  where
    returned : Bool → Option Gathered → Option (RollupRun × Option (List RollupRow))
    returned b o =
        if b
        then some (
          record {
            tenant_ids = tenant_ids;
            start = start;
            end = end;
            hourly_rows = 0;
            daily_rows = 0;
          },
          none,
        )
        else elim o [
          | none ↦ none
          | some all ↦ some (
            record {
              tenant_ids = tenant_ids;
              start = start;
              end = end;
              hourly_rows = length all.hour_buckets;
              daily_rows = length all.day_buckets;
            },
            some all.rows,
          )
        ]

    go :
        (b : Bool) (o o' : Option Gathered)
        → gather tenant_ids (list_facts tenant_ids start end) categories version now empty ≡ o
        → gather tenant_ids (list_facts' tenant_ids start end) categories version now empty ≡ o'
        → returned b o ≡ some (run, rows)
        → returned b o' ≡ some (run', rows')
        → tenant_rows t (written rows) ≡ tenant_rows t (written rows')
    go true o o' ge ge' e e' =
        let a : none ≡ rows = cc in
        let b : none ≡ rows' = cc in ap (λ x. tenant_rows t (written x)) (sym a ∙ b)
    go false none o' ge ge' e e' = cc
    go false (some all) none ge ge' e e' = cc
    go false (some all) (some all') ge ge' e e' =
        let a : some all.rows ≡ rows = cc in
        let b : some all'.rows ≡ rows' = cc in
        ap (λ x. tenant_rows t (written x)) (sym a)
        ∙ gather-own t tenant_ids _ _ categories version now empty empty all all'
            (own-AgreeOn t _ _ same) ge ge' refl
        ∙ ap (λ x. tenant_rows t (written x)) b
