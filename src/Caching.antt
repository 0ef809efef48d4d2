-- ===== src/Caching.antt =====
-- src/utils/cacheable.ts: calls of a method under `@Cacheable()` with the same cache key, interleaved at
-- their awaits. The mutex is async-mutex's: one caller has it at a time; any of those that wait may be
-- the next.
pub mod Exclusion
use compliance_data_platform.Prelude.{
  ℕ, ◌+◌, ◌≡◌, Bool, true, false, Option, none, some, ◌==◌, if◌then◌else◌,
}

-- How a call ends: with a value, with undefined or null, or with an error.
pub data Outcome (V : Type 0) : Type 0 where
  value : V → Outcome V
  nullish error : Outcome V

-- Where a call is: not made, waiting for a mutex, with the mutex and before the look into the cache,
-- with the mutex and in the method itself, or ended.
pub data Phase (V : Type 0) : Type 0 where
  idle : Phase V
  waiting checking computing : (mutex : ℕ) → Phase V
  ended : Outcome V → Phase V

abbrev pub override : {A : Type 0} → ℕ → A → (ℕ → A) → ℕ → A
override k a f n = if n == k then a else f n

module _ (V : Type 0) where
  -- `current` is the key's entry in `functionCallMutexes`, `next` the number of the next new mutex,
  -- `holder` the call that has a mutex, `cache` the value under the key, which
  -- is `none` also for undefined and null, as the look into the cache takes them for a miss.
  pub record State : Type 0 where
    pub current : Option ℕ
    pub next : ℕ
    pub holder : ℕ → Option ℕ
    pub phase : ℕ → Phase V
    pub cache : Option V

  abbrev pub start : State
  start = record { current = none; next = 0; holder = λ m. none; phase = λ i. idle; cache = none }

  -- `getFunctionCallMutex(cacheKey)` and the start of `mutex.acquire()`
  unfoldable pub enter : ℕ → State → State
  enter i s = elim s.current [
    | some m ↦ record s { phase = override i (waiting m) s.phase }
    | none ↦ record s {
      current = some s.next;
      next = s.next + 1;
      phase = override i (waiting s.next) s.phase;
    }
  ]

  unfoldable pub acquire_mutex : ℕ → ℕ → State → State
  acquire_mutex i m s = record s {
    holder = override m (some i) s.holder;
    phase = override i (checking m) s.phase;
  }

  -- `originalMethod.apply(this, args)`
  unfoldable pub begin_method : ℕ → ℕ → State → State
  begin_method i m s = record s { phase = override i (computing m) s.phase }

  -- `finally`: the mutex is released, and the key's entry deleted.
  unfoldable pub leave : ℕ → ℕ → Outcome V → State → State
  leave i m outcome s = record s {
    current = none;
    holder = override m none s.holder;
    phase = override i (ended outcome) s.phase;
  }

  unfoldable pub set_cache : Option V → State → State
  set_cache v s = record s { cache = v }

  pub data Step : State → State → Type 0 where
    call : {s : State} (i : ℕ) → s.phase i ≡ idle → Step s (enter i s)
    acquire :
        {s : State} (i m : ℕ)
        → s.phase i ≡ waiting m
        → s.holder m ≡ none
        → Step s (acquire_mutex i m s)
    hit :
        {s : State} (i m : ℕ) (v : V)
        → s.phase i ≡ checking m
        → s.cache ≡ some v
        → Step s (leave i m (value v) s)
    fail : {s : State} (i m : ℕ) → s.phase i ≡ checking m → Step s (leave i m error s)
    miss :
        {s : State} (i m : ℕ)
        → s.phase i ≡ checking m
        → s.cache ≡ none
        → Step s (begin_method i m s)
    resolve :
        {s : State} (i m : ℕ) (v : V)
        → s.phase i ≡ computing m
        → Step s (leave i m (value v) (set_cache (some v) s))
    resolve_nullish :
        {s : State} (i m : ℕ)
        → s.phase i ≡ computing m
        → Step s (leave i m nullish (set_cache none s))
    reject : {s : State} (i m : ℕ) → s.phase i ≡ computing m → Step s (leave i m error s)
    expire : {s : State} → Step s (record s { cache = none })

  pub data Reach : State → Type 0 where
    here : Reach start
    after : {s t : State} → Reach s → Step s t → Reach t
