-- ===== src/Workers.antt =====
-- utils/async_utils.py: the pool of threads that is made on its first use. `run_blocking_io` takes it
-- from `_get_executor`, which threads may call at the same time.
pub mod Sharing
pub mod Progress
use fingerprint_hub.Prelude.{
  ℕ, ◌+◌, Env, codes, Option, none, some, List, [], ◌∷◌, ◌==◌, if◌then◌else◌,
}
use fingerprint_hub.Prelude.Int.{ℤ, at_least}
use fingerprint_hub.Api.Values.{int}

abbrev pub default_max_workers : ℕ
default_max_workers = 16

unfoldable pub get_max_workers : Env → ℕ
unfolding int
get_max_workers env = elim (env (codes "FINGERPRINTHUB_BLOCKING_IO_MAX_WORKERS")) [
  | none ↦ default_max_workers
  | some raw ↦ elim (int raw) [ none ↦ default_max_workers | some n ↦ at_least 1 n ]
]

-- A ThreadPoolExecutor, told from the others by its number.
pub record Executor : Type 0 where
  pub number : ℕ
  pub max_workers : ℕ

-- Where a thread stands in `_get_executor`.
pub data Phase : Type 0 where
  -- before the first `if _executor is None`
  calling : Phase
  -- before `with _executor_lock`
  waiting : Phase
  -- before the second `if _executor is None`
  checking : Phase
  -- before the assignment
  making : Phase
  -- at the end of the `with`
  releasing : Phase
  -- before `return _executor`
  returning : Phase
  returned : Option Executor → Phase

-- `_executor`, the thread that holds `_executor_lock`, the number of executors made, and where each
-- thread stands.
pub record Shared : Type 0 where
  pub executor : Option Executor
  pub holder : Option ℕ
  pub made : ℕ
  pub phase : ℕ → Phase

unfoldable pub move : ℕ → Phase → Shared → Shared
move t p s = record s { phase = λ u. if u == t then p else s.phase u }

-- `if _executor is None`, with the value that the thread reads
unfoldable pub test : Option Executor → ℕ → Phase → Phase → Shared → Shared
test none t absent present s = move t absent s
test (some _) t absent present s = move t present s

-- A thread that meets a taken lock stays where it is.
unfoldable pub acquire : Option ℕ → ℕ → Shared → Shared
acquire none t s = record (move t checking s) { holder = some t }
acquire (some _) t s = s

unfoldable pub release : ℕ → Shared → Shared
unfolding move
release t s = record (move t returning s) { holder = none }

unfoldable pub make : Env → ℕ → Shared → Shared
unfolding move get_max_workers
make env t s = record (move t releasing s) {
  executor = some (record { number = s.made; max_workers = get_max_workers env });
  made = s.made + 1;
}

unfoldable pub step_from : Env → ℕ → Phase → Shared → Shared
unfolding move test acquire release make
step_from env t calling s = test s.executor t waiting returning s
step_from env t waiting s = acquire s.holder t s
step_from env t checking s = test s.executor t making releasing s
step_from env t making s = make env t s
step_from env t releasing s = release t s
step_from env t returning s = move t (returned s.executor) s
step_from env t (returned e) s = s

-- The next step of a thread.
unfoldable pub step : Env → ℕ → Shared → Shared
unfolding step_from
step env t s = step_from env t (s.phase t) s

-- A schedule names the thread that takes the next step.
unfoldable pub run : Env → List ℕ → Shared → Shared
unfolding step
run env [] s = s
run env (t ∷ schedule) s = run env schedule (step env t s)

abbrev pub start : Shared
start = record { executor = none; holder = none; made = 0; phase = λ t. calling }
