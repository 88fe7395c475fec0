-- ===== src/Supervisor/Restart.antt =====
-- When crates/supervisor/src/lib.rs restarts a component and when it isolates one.
use insider_trader.Prelude.{
  ℕ, zero, suc, ◌+◌, ◌-◌, ◌*◌, ◌/◌, ◌%◌, ◌≤◌, ◌<◌, ◌≡◌, min, refl, sym, ap, ◌∙◌, subst, arith, true,
  false, not, ◌||◌, Option, none, some, List, [], ◌∷◌, ltb, leb, all, length, is_some_and, Text,
  utf8_bytes, Bool-cases, Option-cases, inl, inr, saturating_add_u64, u64_max, u32_max,
}
use insider_trader.Maps.{text_key, get, insert, get-insert_self}
use insider_trader.Supervisor.{
  running, backoff, quarantined, Policy, Component, Supervisor, is_backoff, hash_bytes,
  jittered_backoff, counted_failures, failed, record_failure, dependency_ready,
  dependencies_healthy, restart_if_ready,
}

-- A component that waits in backoff, whose time has come and whose dependencies are all healthy.
pub record IsReady (s : Supervisor) (name : Text) (now : ℕ) (c : Component) : Type 0 where
  pub here : get name s.components ≡ some c
  pub waiting : is_backoff c.state ≡ true
  pub due : c.retry_at_ns ≤ now
  pub healthy : all (dependency_ready s) c.dependencies ≡ true

dependencies_healthy-here :
    (s : Supervisor) (name : Text) (c : Component)
    → get name s.components ≡ some c
    → dependencies_healthy s name ≡ all (dependency_ready s) c.dependencies
unfolding dependencies_healthy
dependencies_healthy-here s name c h = rw (h, dependencies_healthy) refl

-- A component that is ready is restarted: it runs, and nothing else changes.
pub restart-ready :
    (s : Supervisor) (name : Text) (now : ℕ) (c : Component)
    → IsReady s name now c
    → restart_if_ready s name now
      ≡ (true, record s { components = insert name (record c { state = running }) s.components })
unfolding restart_if_ready
restart-ready s name now c r =
    let good : dependencies_healthy s name ≡ true =
      dependencies_healthy-here s name c r.here ∙ r.healthy in
    let late : ltb now c.retry_at_ns ≡ false = ground (arith, r.due) in
    rw (good, r.here, r.waiting, late, restart_if_ready) refl

-- A restart that is refused changes nothing, and one that is not found its component ready.
pub restart_if_ready-IsReady :
    (s : Supervisor) (name : Text) (now : ℕ)
    → ((restart_if_ready s name now).0 ≡ true → (c : Component) × IsReady s name now c)
      × ((restart_if_ready s name now).0 ≡ false → (restart_if_ready s name now).1 ≡ s)
unfolding restart_if_ready
restart_if_ready-IsReady s name now = elim (Bool-cases (dependencies_healthy s name)) [
  | inr bad ↦ rw (bad, restart_if_ready) ((λ e. cc), (λ e. refl))
  | inl good ↦ elim (Option-cases (get name s.components)) [
    | inl e ↦ rw (good, e, restart_if_ready) ((λ e. cc), (λ e. refl))
    | inr (c, e) ↦ elim (Bool-cases (not (is_backoff c.state) || ltb now c.retry_at_ns)) [
      | inl stays ↦ rw (good, e, restart_if_ready) (rw stays ((λ e. cc), (λ e. refl)))
      | inr moves ↦
          let ready : IsReady s name now c = record {
            here = e;
            waiting = ground (arith, moves);
            due = ground (arith, moves);
            healthy = sym (dependencies_healthy-here s name c e) ∙ good;
          } in
          rw (good, e, restart_if_ready) (rw moves ((λ x. (c, ready)), (λ x. cc)))
    ]
  ]
]

product_bound : (n j : ℕ) → j ≤ 10_000 → n * j ≤ 10_000 * n
product_bound zero j h = omega arith
product_bound (suc n) j h = omega (arith, h, product_bound n j h)

-- The jitter of at most 10,000 basis points lengthens a backoff, by no more than itself.
pub jittered_backoff-bounds :
    (bps ns failures : ℕ) (name : Text)
    → bps ≤ 10_000
    → ns ≤ u64_max
    → (ns ≤ jittered_backoff bps ns failures name)
      × (jittered_backoff bps ns failures name ≤ min (2 * ns) u64_max)
unfolding jittered_backoff
jittered_backoff-bounds bps ns failures name h b =
    let jitter = hash_bytes failures (utf8_bytes name) % (bps + 1) in
    let small : jitter ≤ 10_000 = omega (arith, h) in
    let added : min (ns * jitter) u64_max / 10_000 ≤ ns =
      omega (arith, product_bound ns jitter small) in
    (ground (arith, b, added), ground (arith, b, added))

record_failure-here :
    (s : Supervisor) (name : Text) (now : ℕ) (c : Component)
    → get name s.components ≡ some c
    → record_failure s name now ≡ (
      some (failed s.policy name now c).state,
      record s { components = insert name (failed s.policy name now c) s.components },
    )
unfolding record_failure
record_failure-here s name now c here = rw (here, record_failure) refl

failed-backoff :
    (policy : Policy) (name : Text) (now : ℕ) (c : Component)
    → counted_failures policy now c < policy.max_failures
    → let d = failed policy name now c in
      (d.state ≡ backoff)
      × (d.retry_at_ns
          ≡ saturating_add_u64 now (
              jittered_backoff policy.jitter_bps c.backoff_ns (counted_failures policy now c) name))
      × (d.dependencies ≡ c.dependencies)
unfolding failed
failed-backoff policy name now c few =
    let under : leb policy.max_failures (counted_failures policy now c) ≡ false =
      ground (arith, few) in
    rw under (refl, refl, refl)

-- A component whose failures stay below what the policy allows is put into backoff by a failure,
-- whatever its state was, also in quarantine or while it drains, and once its time has come and its
-- dependencies are healthy it is restarted.
pub restart_if_ready-record_failure :
    (s : Supervisor) (name : Text) (now later : ℕ) (c : Component)
    → get name s.components ≡ some c
    → counted_failures s.policy now c < s.policy.max_failures
    → dependencies_healthy s name ≡ true
    → saturating_add_u64 now
        (jittered_backoff s.policy.jitter_bps c.backoff_ns (counted_failures s.policy now c) name)
      ≤ later
    → let failure = record_failure s name now in
      let restart = restart_if_ready failure.1 name later in
      (failure.0 ≡ some backoff)
      × (restart.0 ≡ true)
      × ((d : Component) × (get name restart.1.components ≡ some d) × (d.state ≡ running))
restart_if_ready-record_failure s name now later c here few good due =
    let d = failed s.policy name now c in
    let (state, retry, deps) = failed-backoff s.policy name now c few in
    let t : Supervisor = record s { components = insert name d s.components } in
    let failure : record_failure s name now ≡ (some d.state, t) =
      record_failure-here s name now c here in
    let ready : IsReady t name later d = record {
      here = get-insert_self name d s.components;
      waiting = ap is_backoff state;
      due = omega (arith, retry, due);
      healthy =
          ap (all (dependency_ready s)) deps ∙ sym (dependencies_healthy-here s name c here) ∙ good;
    } in
    let e : restart_if_ready (record_failure s name now).1 name later ≡ (
      true,
      record t { components = insert name (record d { state = running }) t.components },
    ) =
      ap (λ r. restart_if_ready r.1 name later) failure ∙ restart-ready t name later d ready in
    (
      ap (λ r. r.0) failure ∙ ap some state,
      ap (λ r. r.0) e,
      (
        record d { state = running },
        ap (λ r. get name r.1.components) e
            ∙ get-insert_self name (record d { state = running }) t.components,
        refl,
      ),
    )

unfoldable pub fail_all : Supervisor → Text → List ℕ → Supervisor
fail_all s name [] = s
fail_all s name (now ∷ times) = fail_all (record_failure s name now).1 name times

-- Times of failures, each within the window of the policy after the one before it.
abbrev pub IsBurst : ℕ → Option ℕ → List ℕ → Type 0
IsBurst window last [] = Unit
IsBurst window none (now ∷ times) = IsBurst window (some now) times
IsBurst window (some previous) (now ∷ times) =
    (now - previous ≤ window) × IsBurst window (some now) times

IsBurst-window :
    (window : ℕ) (last : Option ℕ) (now : ℕ) (times : List ℕ)
    → IsBurst window last (now ∷ times)
    → (is_some_and last (λ previous. ltb window (now - previous)) ≡ false)
      × IsBurst window (some now) times
IsBurst-window window none now times b = (refl, b)
IsBurst-window window (some previous) now times b = (ground (arith, b.0), b.1)

-- One failure of a burst: it counts, and it isolates the component where the count is reached.
failed-burst :
    (policy : Policy) (name : Text) (now : ℕ) (c : Component)
    → is_some_and c.last_failure_ns (λ previous. ltb policy.window_ns (now - previous)) ≡ false
    → let d = failed policy name now c in
      (d.failures ≡ min (c.failures + 1) u32_max)
      × (d.last_failure_ns ≡ some now)
      × (policy.max_failures ≤ d.failures → d.state ≡ quarantined)
unfolding failed
failed-burst policy name now c recent =
    let count : counted_failures policy now c ≡ min (c.failures + 1) u32_max =
      ground (arith, recent) in
    elim (Bool-cases (leb policy.max_failures (counted_failures policy now c))) [
      | inl over ↦ rw over (count, refl, (λ e. refl))
      | inr under ↦ rw under (count, refl, (λ e. absurd (ground (arith, e, under))))
    ]

abbrev pub IsIsolated : Supervisor → Text → Type 0
IsIsolated s name = (d : Component) × (get name s.components ≡ some d) × (d.state ≡ quarantined)

-- The registry after a failure of a component that is there.
abbrev after_failure : Supervisor → Text → ℕ → Component → Supervisor
after_failure s name now c = record s {
  components = insert name (failed s.policy name now c) s.components;
}

fail_all-after :
    (s : Supervisor) (name : Text) (c : Component) (now : ℕ) (times : List ℕ)
    → get name s.components ≡ some c
    → IsIsolated (fail_all (after_failure s name now c) name times) name
    → IsIsolated (fail_all s name (now ∷ times)) name
unfolding fail_all
fail_all-after s name c now times here done =
    subst (λ u. IsIsolated (fail_all u name times) name)
      (sym (ap (λ r. r.1) (record_failure-here s name now c here))) done

-- A burst of failures, as many as the policy allows with those that are counted already, ends with
-- the component in quarantine.
pub fail_all-IsIsolated :
    (s : Supervisor) (name : Text) (c : Component) (now : ℕ) (times : List ℕ)
    → get name s.components ≡ some c
    → s.policy.max_failures ≤ u32_max
    → IsBurst s.policy.window_ns c.last_failure_ns (now ∷ times)
    → s.policy.max_failures ≤ c.failures + suc (length times)
    → IsIsolated (fail_all s name (now ∷ times)) name
unfolding fail_all
fail_all-IsIsolated s name c now [] here fits burst many =
    let d = failed s.policy name now c in
    let (recent, later) = IsBurst-window s.policy.window_ns c.last_failure_ns now [] burst in
    let (count, last, isolated) = failed-burst s.policy name now c recent in
    fail_all-after s name c now [] here
      (d, get-insert_self name d s.components, isolated (omega (arith, count, many, fits)))
fail_all-IsIsolated s name c now (next ∷ rest) here fits burst many =
    let d = failed s.policy name now c in
    let (recent, later) =
      IsBurst-window s.policy.window_ns c.last_failure_ns now (next ∷ rest) burst in
    let (count, last, isolated) = failed-burst s.policy name now c recent in
    fail_all-after s name c now (next ∷ rest) here (
      fail_all-IsIsolated (after_failure s name now c) name d next rest
        (get-insert_self name d s.components) fits
        (subst (λ o. IsBurst s.policy.window_ns o (next ∷ rest)) (sym last) later)
        (omega (arith, count, many, fits)))
