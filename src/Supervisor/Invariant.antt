-- ===== src/Supervisor/Invariant.antt =====
-- What every call of crates/supervisor/src/lib.rs keeps of the registry.
use insider_trader.Prelude.{
  ℕ, ◌≤◌, ◌<◌, ◌≡◌, max, refl, sym, ap, ◌∙◌, subst, arith, true, not, ◌||◌, Option, none, some,
  List, [], ◌∷◌, ltb, leb, Text, is_blank, Bool-cases, Option-cases, inl, inr,
}
use insider_trader.Maps.{text_key, Map, get, insert, contains_key, key_eq, key_eq_iff, get-insert}
use insider_trader.Supervisor.{
  running, draining, Health, Policy, Component, Supervisor, new_supervisor, is_backoff,
  is_quarantined, fresh_component, register_with_dependencies, set_health, counted_failures, failed,
  record_failure, dependencies_healthy, restart_component, restart_if_ready, resume, drain_all,
  drain,
}

-- One call, with the state that it leaves.
pub data Step : Supervisor → Supervisor → Type 0 where
  registers :
      (s : Supervisor) (name : Text) (deps : List Text)
      → Step s (register_with_dependencies s name deps).1
  reports : (s : Supervisor) (name : Text) (h : Health) → Step s (set_health s name h).1
  fails : (s : Supervisor) (name : Text) (now : ℕ) → Step s (record_failure s name now).1
  restarts : (s : Supervisor) (name : Text) (now : ℕ) → Step s (restart_if_ready s name now).1
  resumes : (s : Supervisor) (name authorization : Text) → Step s (resume s name authorization).1
  drains : (s : Supervisor) → Step s (drain s)

-- The states that the calls reach from an empty registry.
pub data Reach (policy : Policy) : Supervisor → Type 0 where
  start : Reach policy (new_supervisor policy)
  step : (s t : Supervisor) → Reach policy s → Step s t → Reach policy t

-- A component under its own name, whose backoff is bounded and whose state fits its failures.
pub record IsBounded (policy : Policy) (key : Text) (c : Component) : Type 0 where
  pub own_name : c.name ≡ key
  pub limit : c.backoff_ns ≤ max policy.initial_backoff_ns policy.max_backoff_ns
  pub retrying : is_backoff c.state ≡ true → c.failures < policy.max_failures
  pub isolated : is_quarantined c.state ≡ true → policy.max_failures ≤ c.failures

abbrev pub health_of : Option Component → Option Health
health_of none = none
health_of (some c) = some c.health

-- The two maps hold the same names, and the health of a component is the one that it published.
pub record IsConsistent (s : Supervisor) : Type 0 where
  pub bounded : (n : Text) (c : Component) → get n s.components ≡ some c → IsBounded s.policy n c
  pub published : (n : Text) → get n s.dependency_health ≡ health_of (get n s.components)

insert-IsBounded :
    (s : Supervisor) (name : Text) (after : Component)
    → IsConsistent s
    → IsBounded s.policy name after
    → (n : Text) (c : Component) → get n (insert name after s.components) ≡ some c
    → IsBounded s.policy n c
insert-IsBounded s name after ok b n c h = elim (Bool-cases (key_eq n name)) [
  | inl same ↦
      let this : after ≡ c = ground (arith, h, get-insert n name after s.components, same) in
      subst (λ k. IsBounded s.policy k c) (sym ((key_eq_iff n name).0 same))
        (subst (IsBounded s.policy name) this b)
  | inr other ↦ ok.bounded n c (ground (arith, h, get-insert n name after s.components, other))
]

publish-IsConsistent :
    (s : Supervisor) (name : Text) (after : Component)
    → IsConsistent s
    → IsBounded s.policy name after
    → IsConsistent (record s {
      components = insert name after s.components;
      dependency_health = insert name after.health s.dependency_health;
    })
publish-IsConsistent s name after ok b = record {
  bounded = insert-IsBounded s name after ok b;
  published = λ n. ground (
    arith,
    get-insert n name after s.components,
    get-insert n name after.health s.dependency_health,
    ok.published n,
  );
}

update-IsConsistent :
    (s : Supervisor) (name : Text) (before after : Component)
    → IsConsistent s
    → get name s.components ≡ some before
    → after.health ≡ before.health
    → IsBounded s.policy name after
    → IsConsistent (record s { components = insert name after s.components })
update-IsConsistent s name before after ok here same b = record {
  bounded = insert-IsBounded s name after ok b;
  published = λ n. elim (Bool-cases (key_eq n name)) [
    | inl e ↦
        let k : n ≡ name = (key_eq_iff n name).0 e in
        let old : get n s.dependency_health ≡ some before.health =
          ap (λ k. get k s.dependency_health) k ∙ ok.published name ∙ ap health_of here in
        let new : get n (insert name after s.components) ≡ some after =
          ground (arith, get-insert n name after s.components, e) in
        old ∙ ap some (sym same) ∙ ap health_of (sym new)
    | inr e ↦ ground (arith, get-insert n name after s.components, e, ok.published n)
  ];
}

failed-IsBounded :
    (policy : Policy) (name : Text) (now : ℕ) (c : Component)
    → IsBounded policy name c
    → IsBounded policy name (failed policy name now c)
unfolding failed
failed-IsBounded policy name now c b =
    elim (Bool-cases (leb policy.max_failures (counted_failures policy now c))) [
      | inl over ↦ ground (arith, over, b.own_name, b.limit)
      | inr under ↦ ground (arith, under, b.own_name, b.limit)
    ]

failed_health :
    (policy : Policy) (name : Text) (now : ℕ) (c : Component)
    → (failed policy name now c).health ≡ c.health
unfolding failed
failed_health policy name now c = ground arith

register-IsConsistent :
    (s : Supervisor) (name : Text) (deps : List Text)
    → IsConsistent s
    → IsConsistent (register_with_dependencies s name deps).1
unfolding register_with_dependencies
register-IsConsistent s name deps ok = elim (Bool-cases (contains_key name s.components)) [
  | inl e ↦ rw (e, register_with_dependencies) ok
  | inr e ↦
      rw (e, register_with_dependencies)
        (publish-IsConsistent s name (fresh_component s.policy name deps) ok
          (record { own_name = refl; limit = omega arith; retrying = λ e. cc; isolated = λ e. cc }))
]

set_health-IsConsistent :
    (s : Supervisor) (name : Text) (h : Health)
    → IsConsistent s
    → IsConsistent (set_health s name h).1
unfolding set_health
set_health-IsConsistent s name h ok = elim (Option-cases (get name s.components)) [
  | inl e ↦ rw (e, set_health) ok
  | inr (c, e) ↦
      let b = ok.bounded name c e in
      rw (e, set_health)
        (publish-IsConsistent s name (record c { health = h }) ok
          (record {
            own_name = b.own_name;
            limit = b.limit;
            retrying = b.retrying;
            isolated = b.isolated;
          }))
]

record_failure-IsConsistent :
    (s : Supervisor) (name : Text) (now : ℕ)
    → IsConsistent s
    → IsConsistent (record_failure s name now).1
unfolding record_failure
record_failure-IsConsistent s name now ok = elim (Option-cases (get name s.components)) [
  | inl e ↦ rw (e, record_failure) ok
  | inr (c, e) ↦
      rw (e, record_failure)
        (update-IsConsistent s name c (failed s.policy name now c) ok e
          (failed_health s.policy name now c)
          (failed-IsBounded s.policy name now c (ok.bounded name c e)))
]

restart_component-IsConsistent :
    (s : Supervisor) (name : Text) (now : ℕ) (o : Option Component)
    → get name s.components ≡ o
    → IsConsistent s
    → IsConsistent (restart_component s name now o).1
restart_component-IsConsistent s name now none e ok = ok
restart_component-IsConsistent s name now (some c) e ok =
    elim (Bool-cases (not (is_backoff c.state) || ltb now c.retry_at_ns)) [
      | inl stays ↦ rw stays ok
      | inr moves ↦
          let b = ok.bounded name c e in
          rw moves (
            update-IsConsistent s name c (record c { state = running }) ok e refl
              (record {
                own_name = b.own_name;
                limit = b.limit;
                retrying = λ x. cc;
                isolated = λ x. cc;
              }))
    ]

restart-IsConsistent :
    (s : Supervisor) (name : Text) (now : ℕ)
    → IsConsistent s
    → IsConsistent (restart_if_ready s name now).1
unfolding restart_if_ready
restart-IsConsistent s name now ok = elim (Bool-cases (not (dependencies_healthy s name))) [
  | inl stays ↦ rw (stays, restart_if_ready) ok
  | inr moves ↦
      rw (moves, restart_if_ready)
        (restart_component-IsConsistent s name now (get name s.components) refl ok)
]

resume-IsConsistent :
    (s : Supervisor) (name authorization : Text)
    → IsConsistent s
    → IsConsistent (resume s name authorization).1
unfolding resume
resume-IsConsistent s name authorization ok = elim (Option-cases (get name s.components)) [
  | inl e ↦ rw (e, resume) ok
  | inr (c, e) ↦ elim (Bool-cases (not (is_quarantined c.state))) [
    | inl stays ↦ rw (e, stays, resume) ok
    | inr held ↦ elim (Bool-cases (is_blank authorization)) [
      | inl stays ↦ rw (e, held, stays, resume) ok
      | inr signed ↦
          let b = ok.bounded name c e in
          rw (e, held, signed, resume)
            (update-IsConsistent s name c
              (record c {
                state = running;
                failures = 0;
                backoff_ns = s.policy.initial_backoff_ns;
                last_failure_ns = none;
              })
              ok e refl
              (record {
                own_name = b.own_name;
                limit = omega arith;
                retrying = λ x. cc;
                isolated = λ x. cc;
              }))
    ]
  ]
]

abbrev draining_of : Option Component → Option Component
draining_of none = none
draining_of (some c) = some (record c { state = draining })

get-drain_all : (n : Text) (m : Map Text Component) → get n (drain_all m) ≡ draining_of (get n m)
unfolding get drain_all
get-drain_all n [] = refl
get-drain_all n ((k, c) ∷ m) = ground (arith, get-drain_all n m)

drain-IsConsistent : (s : Supervisor) → IsConsistent s → IsConsistent (drain s)
drain-IsConsistent s ok = record {
  bounded = λ n c h. drained n c (get n s.components) refl (sym (get-drain_all n s.components) ∙ h);
  published = λ n. ground (arith, get-drain_all n s.components, ok.published n);
}
  where
    drained :
        (n : Text) (c : Component) (o : Option Component)
        → get n s.components ≡ o
        → draining_of o ≡ some c
        → IsBounded s.policy n c
    drained n c none e h = cc
    drained n c (some d) e h =
        let b = ok.bounded n d e in
        let this : record d { state = draining } ≡ c = cc in
        subst (IsBounded s.policy n) this (record {
          own_name = b.own_name;
          limit = b.limit;
          retrying = λ x. cc;
          isolated = λ x. cc;
        })

Step-IsConsistent : (s t : Supervisor) → Step s t → IsConsistent s → IsConsistent t
Step-IsConsistent _ _ (registers s name deps) ok = register-IsConsistent s name deps ok
Step-IsConsistent _ _ (reports s name h) ok = set_health-IsConsistent s name h ok
Step-IsConsistent _ _ (fails s name now) ok = record_failure-IsConsistent s name now ok
Step-IsConsistent _ _ (restarts s name now) ok = restart-IsConsistent s name now ok
Step-IsConsistent _ _ (resumes s name a) ok = resume-IsConsistent s name a ok
Step-IsConsistent _ _ (drains s) ok = drain-IsConsistent s ok

-- In every state that the calls reach, the two maps hold the same names with the same health, each
-- component has its own name and a backoff of at most the greater of the two backoffs of the policy,
-- one in backoff has fewer failures than the policy allows, and one in quarantine has as many.
pub Reach-IsConsistent : (policy : Policy) (s : Supervisor) → Reach policy s → IsConsistent s
unfolding get
Reach-IsConsistent policy _ start = record { bounded = λ n c h. cc; published = λ n. refl }
Reach-IsConsistent policy _ (step s t r st) =
    Step-IsConsistent s t st (Reach-IsConsistent policy s r)
