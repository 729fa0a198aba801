-- ===== src/Queue.antt =====
-- `concurrent_queue<T>` of j2_library/include/j2_library/queue/concurrent_queue.hpp. Each method
-- holds the mutex from its first read to its last write, so it is one step here; `notify_one`
-- comes behind the unlock and is a step of its own in Waiters.
pub mod Laws
pub mod Fifo
pub mod Waiters
mod Tests
use jaytwo_library.Prelude.{
  ℕ, zero, suc, Bool, true, false, not, List, [], ◌∷◌, ◌++◌, Option, none, some, length, is_empty,
  if◌then◌else◌, leb, ◌==◌,
}

pub data OverflowPolicy : Type 0 where
  drop_oldest : OverflowPolicy
  reject_new : OverflowPolicy

pub record ConcurrentQueue {ℓ} (A : Type ℓ) : Type ℓ where
  pub queue : List A
  pub max_size : ℕ
  pub policy : OverflowPolicy

module _ {ℓ} {A : Type ℓ} where
  unfoldable pub init : ℕ → OverflowPolicy → ConcurrentQueue A
  init max_size policy = record { queue = []; max_size = max_size; policy = policy }

  -- `pop_front` of a deque that is not empty.
  abbrev pub pop_front : List A → List A
  pop_front [] = []
  pop_front (x ∷ xs) = xs

  -- `emplace_impl`, which `enqueue` and `emplace` call: the queue, and whether the value went in.
  unfoldable pub emplace_impl : ConcurrentQueue A → A → ConcurrentQueue A × Bool
  emplace_impl q value =
      if q.max_size == 0
      then (record q { queue = q.queue ++ value ∷ [] }, true)
      else if leb q.max_size (length q.queue)
      then elim q.policy [
        | drop_oldest ↦ (record q { queue = pop_front q.queue ++ value ∷ [] }, true)
        | reject_new ↦ (q, false)
      ]
      else (record q { queue = q.queue ++ value ∷ [] }, true)

  unfoldable pub enqueue : ConcurrentQueue A → A → ConcurrentQueue A × Bool
  unfolding emplace_impl
  enqueue q value = emplace_impl q value

  unfoldable pub take_front : List A → ConcurrentQueue A → ConcurrentQueue A × Option A
  take_front [] q = (q, none)
  take_front (x ∷ xs) q = (record q { queue = xs }, some x)

  -- The value goes to `out`; without one the result is `false`.
  unfoldable pub try_dequeue : ConcurrentQueue A → ConcurrentQueue A × Option A
  unfolding take_front
  try_dequeue q = take_front q.queue q

  unfoldable pub take_front_if :
      (A → ℕ → Bool) → List A → ConcurrentQueue A → ConcurrentQueue A × Option A
  take_front_if pred [] q = (q, none)
  take_front_if pred (x ∷ xs) q =
      if pred x (length (x ∷ xs)) then (record q { queue = xs }, some x) else (q, none)

  unfoldable pub dequeue_if : ConcurrentQueue A → (A → ℕ → Bool) → ConcurrentQueue A × Option A
  unfolding take_front_if
  dequeue_if q pred = take_front_if pred q.queue q

  -- What `wait_dequeue` does under the lock once `not_empty_cv_` lets it on.
  unfoldable pub wait_dequeue : ConcurrentQueue A → ConcurrentQueue A × Option A
  unfolding take_front
  wait_dequeue q = take_front q.queue q

  unfoldable pub size : ConcurrentQueue A → ℕ
  size q = length q.queue

  unfoldable pub empty : ConcurrentQueue A → Bool
  empty q = is_empty q.queue

  unfoldable pub is_bounded : ConcurrentQueue A → Bool
  is_bounded q = not (q.max_size == 0)

  unfoldable pub capacity : ConcurrentQueue A → ℕ
  capacity q = q.max_size

  unfoldable pub get_overflow_policy : ConcurrentQueue A → OverflowPolicy
  get_overflow_policy q = q.policy

  -- The queue, and the number of values that were in it.
  unfoldable pub clear : ConcurrentQueue A → ConcurrentQueue A × ℕ
  clear q = (record q { queue = [] }, length q.queue)
