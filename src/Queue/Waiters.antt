-- ===== src/Queue/Waiters.antt =====
-- The threads of `concurrent_queue`: those that sleep in `wait_dequeue`, and the `notify_one` that comes
-- behind the unlock of `emplace_impl`. A step is what one thread does while it holds the mutex, or one
-- `notify_one`.
pub mod Awake
use jaytwo_library.Prelude.{
  ℕ, ◌+◌, ◌-◌, ◌<◌, zero, suc, Bool, true, false, List, [], ◌∷◌, ◌++◌, Option, none, some,
  if◌then◌else◌, ltb,
}
use jaytwo_library.Queue.{
  ConcurrentQueue, OverflowPolicy, init, emplace_impl, try_dequeue, dequeue_if, wait_dequeue, clear,
}

-- `sleeping` threads wait for `not_empty_cv_`, `woken` ones have yet to get the mutex back, and
-- `pending` ones have put a value and have yet to call `notify_one`. `served` are the values that
-- `wait_dequeue` has returned.
pub record Threads {ℓ} (A : Type ℓ) : Type ℓ where
  pub shared : ConcurrentQueue A
  pub sleeping : ℕ
  pub woken : ℕ
  pub pending : ℕ
  pub served : List A

module _ {ℓ} {A : Type ℓ} where
  abbrev pub begin : ℕ → OverflowPolicy → Threads A
  begin max_size policy = record {
    shared = init max_size policy;
    sleeping = 0;
    woken = 0;
    pending = 0;
    served = [];
  }

  -- `emplace_impl` up to the unlock.
  unfoldable pub put_value : Threads A → A → Threads A
  unfolding emplace_impl
  put_value s v =
      let (q, taken) = emplace_impl s.shared v in
      if taken then record s { shared = q; pending = suc s.pending } else record s { shared = q }

  -- `notify_one`, without effect where no thread sleeps.
  unfoldable pub notify_one : Threads A → Threads A
  notify_one s =
      if ltb 0 s.sleeping
      then record s { sleeping = s.sleeping - 1; woken = suc s.woken; pending = s.pending - 1 }
      else record s { pending = s.pending - 1 }

  -- The test of `wait` under the mutex: the thread goes to sleep, or takes the value and returns.
  abbrev pub sleep_or_take : ConcurrentQueue A × Option A → Threads A → Threads A
  sleep_or_take (q, none) s = record s { sleeping = suc s.sleeping }
  sleep_or_take (q, some v) s = record s { shared = q; served = s.served ++ v ∷ [] }

  unfoldable pub begin_wait : Threads A → Threads A
  unfolding wait_dequeue
  begin_wait s = sleep_or_take (wait_dequeue s.shared) s

  unfoldable pub resume_wait : Threads A → Threads A
  unfolding wait_dequeue
  resume_wait s = sleep_or_take (wait_dequeue s.shared) (record s { woken = s.woken - 1 })

  unfoldable pub wake_spuriously : Threads A → Threads A
  wake_spuriously s = record s { sleeping = s.sleeping - 1; woken = suc s.woken }

  -- `waiting` is a thread that calls `wait_dequeue` anew, at any time.
  pub data Step (s : Threads A) : Threads A → Type ℓ where
    putting : (v : A) → Step s (put_value s v)
    notifying : 0 < s.pending → Step s (notify_one s)
    waiting : Step s (begin_wait s)
    resuming : 0 < s.woken → Step s (resume_wait s)
    spurious : 0 < s.sleeping → Step s (wake_spuriously s)
    taking : Step s (record s { shared = (try_dequeue s.shared).0 })
    taking_if : (pred : A → ℕ → Bool) → Step s (record s { shared = (dequeue_if s.shared pred).0 })
    clearing : Step s (record s { shared = (clear s.shared).0 })

  pub data Reach (s : Threads A) : Threads A → Type ℓ where
    here : Reach s s
    next : {t u : Threads A} → Reach s t → Step t u → Reach s u
