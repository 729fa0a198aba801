-- ===== src/Queue/Tests.antt =====
-- The laws of the queue at concrete runs.
use jaytwo_library.Prelude.{ℕ, List, [], ◌∷◌, ◌++◌, ◌==◌, ◌<◌, ◌≤◌, ◌+◌, ◌≡◌, ◌⊎◌, inr, refl, arith}
use jaytwo_library.Queue.{ConcurrentQueue, init, OverflowPolicy, drop_oldest, reject_new}
use jaytwo_library.Queue.Laws.{Call, put, take, take_if, wipe, run, IsBounded, run-IsBounded}
use jaytwo_library.Queue.Fifo.{run_fifo}
use jaytwo_library.Queue.Waiters.{
  Threads, begin, begin_wait, resume_wait, notify_one, put_value, waiting, putting, Reach, here,
  next,
}
use jaytwo_library.Queue.Waiters.Awake.{HandsOver, no_lost_wakeup}

-- A full queue of two values.
abbrev full : OverflowPolicy → ConcurrentQueue ℕ
full policy = record { queue = 1 ∷ 2 ∷ []; max_size = 2; policy = policy }

abbrev calls : List (Call ℕ)
calls = put 3 ∷ take ∷ put 4 ∷ take_if (λ v n. n == 2) ∷ wipe ∷ put 5 ∷ []

run-IsBounded_example : IsBounded (run (full drop_oldest) calls).0
run-IsBounded_example =
    run-IsBounded (full drop_oldest) calls (record { within = inr (omega arith) })

run_fifo_example :
    (run (full reject_new) calls).2 ++ (run (full reject_new) calls).0.queue
    ≡ (1 ∷ 2 ∷ []) ++ (run (full reject_new) calls).1
run_fifo_example = run_fifo (full reject_new) calls (inr refl)

-- A thread waits at an empty queue, and another puts a value and has yet to notify.
abbrev waits : Threads ℕ
waits = begin_wait (begin 2 reject_new)

abbrev stored : Threads ℕ
stored = put_value waits 7

stored-Reach : Reach (begin 2 reject_new) stored
stored-Reach = next (next here waiting) (putting 7)

stored_value : stored.shared.queue ≡ 7 ∷ []
unfolding put_value begin_wait init
stored_value = refl

stored_asleep : 0 < stored.sleeping
unfolding put_value begin_wait init
stored_asleep = omega arith

no_lost_wakeup_example :
    (1 ≤ stored.woken + stored.pending)
    × (((0 < stored.woken) × HandsOver stored (resume_wait stored) 7 [])
        ⊎ ((0 < stored.pending)
            × (0 < (notify_one stored).woken)
            × HandsOver stored (resume_wait (notify_one stored)) 7 []))
unfolding put_value begin_wait init
no_lost_wakeup_example =
    no_lost_wakeup 2 reject_new stored 7 [] stored-Reach stored_value stored_asleep
