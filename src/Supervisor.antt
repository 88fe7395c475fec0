-- ===== src/Supervisor.antt =====
-- crates/supervisor/src/lib.rs: the registry of components, their failures, their backoff and their
-- quarantine. The two `BTreeMap`s of the source are maps from a name.
pub mod Invariant
pub mod Restart
use insider_trader.Prelude.{
  ℕ, zero, suc, ◌+◌, ◌-◌, ◌*◌, ◌/◌, ◌%◌, ◌^◌, min, Bool, true, false, ◌&&◌, ◌||◌, not, Option, none,
  some, List, [], ◌∷◌, map, ltb, leb, ◌==◌, if◌then◌else◌, all, is_some_and, unwrap_or, u32_max,
  saturating_add_u64, saturating_mul_u64, Text, utf8_bytes, is_blank, Result, ok, err,
}
use insider_trader.Maps.{Key, text_key, Map, get, insert, contains_key, values}

pub data State : Type 0 where
  running backoff quarantined draining : State

pub data Health : Type 0 where
  unknown healthy degraded unavailable : Health

pub record Policy : Type 0 where
  pub max_failures : ℕ
  pub window_ns : ℕ
  pub initial_backoff_ns : ℕ
  pub max_backoff_ns : ℕ
  pub jitter_bps : ℕ

pub record Component : Type 0 where
  pub name : Text
  pub state : State
  pub failures : ℕ
  pub retry_at_ns : ℕ
  pub backoff_ns : ℕ
  pub last_failure_ns : Option ℕ
  pub dependencies : List Text
  pub health : Health

pub data ResumeError : Type 0 where
  not_found not_quarantined authorization_required : ResumeError

pub record Supervisor : Type 0 where
  pub policy : Policy
  pub components : Map Text Component
  pub dependency_health : Map Text Health

abbrev pub new_supervisor : Policy → Supervisor
new_supervisor policy = record { policy = policy; components = []; dependency_health = [] }

abbrev pub is_backoff : State → Bool
is_backoff backoff = true
is_backoff _ = false

abbrev pub is_quarantined : State → Bool
is_quarantined quarantined = true
is_quarantined _ = false

abbrev pub is_healthy : Health → Bool
is_healthy healthy = true
is_healthy _ = false

-- The component that both registrations insert.
abbrev pub fresh_component : Policy → Text → List Text → Component
fresh_component policy name dependencies = record {
  name = name;
  state = running;
  failures = 0;
  retry_at_ns = 0;
  backoff_ns = policy.initial_backoff_ns;
  last_failure_ns = none;
  dependencies = dependencies;
  health = healthy;
}

unfoldable pub register_with_dependencies : Supervisor → Text → List Text → Bool × Supervisor
register_with_dependencies s name dependencies =
    if contains_key name s.components then (false, s) else (
      true,
      record s {
        components = insert name (fresh_component s.policy name dependencies) s.components;
        dependency_health = insert name healthy s.dependency_health;
      },
    )

abbrev pub register : Supervisor → Text → Bool × Supervisor
register s name = register_with_dependencies s name []

unfoldable pub set_health : Supervisor → Text → Health → Bool × Supervisor
set_health s name health = elim (get name s.components) [
  | none ↦ (false, s)
  | some component ↦ (
    true,
    record s {
      components = insert name (record component { health = health }) s.components;
      dependency_health = insert name health s.dependency_health;
    },
  )
]

abbrev pub dependency_ready : Supervisor → Text → Bool
dependency_ready s dependency = is_healthy (unwrap_or (get dependency s.dependency_health) unknown)

unfoldable pub dependencies_healthy : Supervisor → Text → Bool
dependencies_healthy s name = elim (get name s.components) [
  | none ↦ false
  | some component ↦ all (dependency_ready s) component.dependencies
]

-- The hash of a name, byte by byte, with wrap-around.
unfoldable pub hash_bytes : ℕ → List ℕ → ℕ
hash_bytes hash [] = hash
hash_bytes hash (byte ∷ bytes) =
    hash_bytes ((hash * 1_099_511_628_211 % 2 ^ 64 + byte) % 2 ^ 64) bytes

unfoldable pub jittered_backoff : ℕ → ℕ → ℕ → Text → ℕ
jittered_backoff jitter_bps backoff_ns failures name =
    if jitter_bps == 0 || backoff_ns == 0
    then backoff_ns
    else let jitter = hash_bytes failures (utf8_bytes name) % (jitter_bps + 1) in
      saturating_add_u64 backoff_ns (saturating_mul_u64 backoff_ns jitter / 10_000)

-- The failures that count, with the one at this time.
abbrev pub counted_failures : Policy → ℕ → Component → ℕ
counted_failures policy now_ns component =
    let before =
      if is_some_and component.last_failure_ns
        (λ previous. ltb policy.window_ns (now_ns - previous))
      then 0
      else component.failures in
    min (before + 1) u32_max

unfoldable pub failed : Policy → Text → ℕ → Component → Component
failed policy name now_ns component =
    let failures = counted_failures policy now_ns component in
    if leb policy.max_failures failures
    then record component {
      failures = failures;
      last_failure_ns = some now_ns;
      state = quarantined;
    }
    else record component {
      failures = failures;
      last_failure_ns = some now_ns;
      state = backoff;
      retry_at_ns =
          saturating_add_u64 now_ns
            (jittered_backoff policy.jitter_bps component.backoff_ns failures name);
      backoff_ns = min (saturating_mul_u64 component.backoff_ns 2) policy.max_backoff_ns;
    }

unfoldable pub record_failure : Supervisor → Text → ℕ → Option State × Supervisor
record_failure s name now_ns = elim (get name s.components) [
  | none ↦ (none, s)
  | some component ↦
      let after = failed s.policy name now_ns component in
      (some after.state, record s { components = insert name after s.components })
]

-- What a restart does to a component that is there, when its dependencies are healthy.
abbrev pub restart_component : Supervisor → Text → ℕ → Option Component → Bool × Supervisor
restart_component s name now_ns none = (false, s)
restart_component s name now_ns (some component) =
    if not (is_backoff component.state) || ltb now_ns component.retry_at_ns then (false, s) else (
      true,
      record s { components = insert name (record component { state = running }) s.components },
    )

unfoldable pub restart_if_ready : Supervisor → Text → ℕ → Bool × Supervisor
restart_if_ready s name now_ns =
    if not (dependencies_healthy s name)
    then (false, s)
    else restart_component s name now_ns (get name s.components)

unfoldable pub resume : Supervisor → Text → Text → Result ResumeError (Unit {0}) × Supervisor
resume s name authorization = elim (get name s.components) [
  | none ↦ (err not_found, s)
  | some component ↦
      if not (is_quarantined component.state)
      then (err not_quarantined, s)
      else if is_blank authorization
      then (err authorization_required, s)
      else let after : Component = record component {
        state = running;
        failures = 0;
        backoff_ns = s.policy.initial_backoff_ns;
        last_failure_ns = none;
      } in
        (ok tt, record s { components = insert name after s.components })
]

unfoldable pub drain_all : Map Text Component → Map Text Component
drain_all [] = []
drain_all ((name, component) ∷ m) = (name, record component { state = draining }) ∷ drain_all m

abbrev pub drain : Supervisor → Supervisor
drain s = record s { components = drain_all s.components }

-- `snapshot`, the components in the order of their names.
abbrev pub snapshot : Supervisor → List Component
snapshot s = values s.components
