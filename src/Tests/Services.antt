-- ===== src/Tests/Services.antt =====
-- Supervised components, a shared bus and scheduled work.
use insider_trader.Prelude.{◌≡◌, refl, true, some, [], ◌∷◌, arith, Text, codes}
use insider_trader.Maps.{text_key, text_cmp, get, insert}
use insider_trader.Supervisor.{
  running, backoff, quarantined, healthy, Policy, Component, Supervisor, new_supervisor,
  fresh_component, register_with_dependencies, record_failure, failed, jittered_backoff,
  restart_if_ready, dependencies_healthy,
}
use insider_trader.Supervisor.Invariant.{
  start, step, registers, fails, IsConsistent, Reach-IsConsistent,
}
use insider_trader.Supervisor.Restart.{
  restart_if_ready-record_failure, fail_all, IsIsolated, fail_all-IsIsolated,
}

abbrev policy : Policy
policy = record {
  max_failures = 3;
  window_ns = 1_000;
  initial_backoff_ns = 10;
  max_backoff_ns = 40;
  jitter_bps = 0;
}

abbrev feed : Text
feed = codes "feed"

abbrev feed_component : Component
feed_component = fresh_component policy feed []

abbrev one_component : Supervisor
one_component = record {
  policy = policy;
  components = (feed, feed_component) ∷ [];
  dependency_health = (feed, healthy) ∷ [];
}

-- The component after three failures, and its registry.
abbrev isolated_component : Component
isolated_component = record feed_component {
  state = quarantined;
  failures = 3;
  retry_at_ns = 220;
  backoff_ns = 40;
  last_failure_ns = some 300;
}

abbrev isolated : Supervisor
isolated = record one_component { components = (feed, isolated_component) ∷ [] }

isolated_run : fail_all one_component feed (100 ∷ 200 ∷ 300 ∷ []) ≡ isolated
unfolding fail_all record_failure failed get insert text_cmp jittered_backoff
isolated_run = refl

Reach-IsConsistent_example : IsConsistent isolated
unfolding record_failure failed register_with_dependencies get insert text_cmp jittered_backoff
Reach-IsConsistent_example = Reach-IsConsistent policy isolated (
    step _ isolated
      (step _ _
        (step _ _ (step _ one_component start (registers (new_supervisor policy) feed []))
          (fails one_component feed 100))
        (fails _ feed 200))
      (fails _ feed 300))

isolated_get : get feed isolated.components ≡ some isolated_component
unfolding get text_cmp
isolated_get = refl

healthy_feed : dependencies_healthy isolated feed ≡ true
unfolding dependencies_healthy get text_cmp
healthy_feed = refl

backoff_of_feed : jittered_backoff 0 40 1 feed ≡ 40
unfolding jittered_backoff
backoff_of_feed = refl

restart_if_ready-record_failure_example :
    let failure = record_failure isolated feed 2_000 in
    let restart = restart_if_ready failure.1 feed 3_000 in
    (failure.0 ≡ some backoff)
    × (restart.0 ≡ true)
    × ((d : Component) × (get feed restart.1.components ≡ some d) × (d.state ≡ running))
restart_if_ready-record_failure_example =
    restart_if_ready-record_failure isolated feed 2_000 3_000 isolated_component isolated_get
      (omega arith) healthy_feed (omega (arith, backoff_of_feed))

new_get : get feed one_component.components ≡ some feed_component
unfolding get text_cmp
new_get = refl

fail_all-IsIsolated_example : IsIsolated (fail_all one_component feed (100 ∷ 200 ∷ 300 ∷ [])) feed
fail_all-IsIsolated_example =
    fail_all-IsIsolated one_component feed feed_component 100 (200 ∷ 300 ∷ []) new_get (omega arith)
      (omega arith, (omega arith, tt)) (omega arith)
