-- ===== src/Queue/Waiters/Awake.antt =====
-- No wake-up is lost.
use jaytwo_library.Prelude.{
  ℕ, ◌+◌, ◌-◌, ◌<◌, ◌≤◌, suc, Bool, true, false, List, [], ◌∷◌, ◌++◌, length, ltb, ◌≡◌, ◌≢◌, ◌⊎◌,
  inl, inr, refl, sym, ap, ◌∙◌, arith, Bool-cases, length-append,
}
use jaytwo_library.Queue.{
  ConcurrentQueue, OverflowPolicy, pop_front, emplace_impl, try_dequeue, dequeue_if, wait_dequeue,
  clear, take_front, take_front_if,
}
use jaytwo_library.Queue.Waiters.{
  Threads, begin, put_value, notify_one, sleep_or_take, begin_wait, resume_wait, wake_spuriously,
  Step, putting, notifying, waiting, resuming, spurious, taking, taking_if, clearing, Reach, here,
  next,
}

module _ {ℓ} {A : Type ℓ} where
  -- While a thread sleeps, every value in the queue has a thread that is awake for it, or a
  -- `notify_one` that is still to come.
  abbrev pub IsAwake : Threads A → Type 0
  IsAwake s = 0 < s.sleeping → length s.shared.queue ≤ s.woken + s.pending

  length-pop_front : (v : A) (xs : List A) → length (pop_front xs ++ v ∷ []) ≤ suc (length xs)
  length-pop_front v [] = omega arith
  length-pop_front v (x ∷ xs) = omega (arith, length-append xs (v ∷ []))

  longer :
      (q : ConcurrentQueue A) (v : A) → length (emplace_impl q v).0.queue ≤ suc (length q.queue)
  unfolding emplace_impl
  longer q v = ground (arith, length-pop_front v q.queue, length-append q.queue (v ∷ []))

  refused :
      (q : ConcurrentQueue A) (v : A) → (emplace_impl q v).1 ≡ false → (emplace_impl q v).0 ≡ q
  unfolding emplace_impl
  refused q v e = ground arith

  length-take_front :
      (xs : List A) (q : ConcurrentQueue A)
      → length xs ≤ length q.queue
      → length (take_front xs q).0.queue ≤ length q.queue
  unfolding take_front
  length-take_front [] q h = omega arith
  length-take_front (x ∷ xs) q h = omega (arith, h)

  length-take_front_if :
      (pred : A → ℕ → Bool) (xs : List A) (q : ConcurrentQueue A)
      → length xs ≤ length q.queue
      → length (take_front_if pred xs q).0.queue ≤ length q.queue
  unfolding take_front_if
  length-take_front_if pred [] q h = omega arith
  length-take_front_if pred (x ∷ xs) q h = ground (arith, h)

  put_value-IsAwake : (s : Threads A) (v : A) → IsAwake s → IsAwake (put_value s v)
  unfolding put_value
  put_value-IsAwake s v h = elim (Bool-cases (emplace_impl s.shared v).1) [
    | inl e ↦ rw (e, put_value) (λ lt. omega (arith, h lt, longer s.shared v))
    | inr e ↦ rw (e, put_value, refused s.shared v e) h
  ]

  notify_one-IsAwake : (s : Threads A) → 0 < s.pending → IsAwake s → IsAwake (notify_one s)
  unfolding notify_one
  notify_one-IsAwake s p h = elim (Bool-cases (ltb 0 s.sleeping)) [
    | inl e ↦ rw (e, notify_one) (λ lt. let old = h (ground (arith, e)) in omega (arith, old, p))
    | inr e ↦ rw (e, notify_one) (λ lt. absurd (ground (arith, e, lt)))
  ]

  -- With a thread less that is awake, if the queue is empty, and with a value less, if not.
  sleep_or_take-IsAwake :
      (xs : List A) (s : Threads A)
      → xs ≡ s.shared.queue
      → (xs ≢ [] → 0 < s.sleeping → length xs ≤ suc (s.woken + s.pending))
      → IsAwake (sleep_or_take (take_front xs s.shared) s)
  unfolding take_front
  sleep_or_take-IsAwake [] s e h = λ lt. omega (arith, sym (ap length e))
  sleep_or_take-IsAwake (x ∷ xs) s e h = λ lt. let old = h (λ q. cc) lt in omega (arith, old)

  Step-IsAwake : {s t : Threads A} → Step s t → IsAwake s → IsAwake t
  unfolding begin_wait resume_wait wake_spuriously wait_dequeue try_dequeue dequeue_if clear
  Step-IsAwake {s} (putting v) h = put_value-IsAwake s v h
  Step-IsAwake {s} (notifying p) h = notify_one-IsAwake s p h
  Step-IsAwake {s} waiting h =
      sleep_or_take-IsAwake s.shared.queue s refl (λ n lt. let old = h lt in omega (arith, old))
  Step-IsAwake {s} (resuming w) h =
      sleep_or_take-IsAwake s.shared.queue (record s { woken = s.woken - 1 }) refl
        (λ n lt. let old = h lt in omega (arith, old, w))
  Step-IsAwake {s} (spurious l) h = λ lt. let old = h l in omega (arith, old)
  Step-IsAwake {s} taking h = λ lt.
      let old = h lt in omega (arith, old, length-take_front s.shared.queue s.shared (omega arith))
  Step-IsAwake {s} (taking_if pred) h = λ lt.
      let old = h lt in
      omega (arith, old, length-take_front_if pred s.shared.queue s.shared (omega arith))
  Step-IsAwake {s} clearing h = λ lt. omega arith

  Reach-IsAwake : {s t : Threads A} → Reach s t → IsAwake s → IsAwake t
  Reach-IsAwake here h = h
  Reach-IsAwake (next r st) h = Step-IsAwake st (Reach-IsAwake r h)

  -- A thread that is awake gets the first value.
  resume_takes :
      (s : Threads A) (v : A) (vs : List A)
      → s.shared.queue ≡ v ∷ vs
      → ((resume_wait s).served ≡ s.served ++ v ∷ []) × ((resume_wait s).shared.queue ≡ vs)
  unfolding resume_wait wait_dequeue take_front
  resume_takes s v vs e = rw (e, take_front) (refl, refl)

  notify_wakes :
      (s : Threads A)
      → 0 < s.sleeping
      → (0 < (notify_one s).woken)
        × ((notify_one s).shared ≡ s.shared)
        × ((notify_one s).served ≡ s.served)
  unfolding notify_one
  notify_wakes s l =
      let e : ltb 0 s.sleeping ≡ true = ground (arith, l) in rw e (omega arith, refl, refl)

  -- A thread that waits has returned the first value, and the other values are left.
  abbrev pub HandsOver : Threads A → Threads A → A → List A → Type ℓ
  HandsOver s t v vs = (t.served ≡ s.served ++ v ∷ []) × (t.shared.queue ≡ vs)

  -- No wake-up is lost. Whatever the threads did before, if values are stored and a thread sleeps in
  -- `wait_dequeue`, then the threads that are awake and the `notify_one` still to come are together no
  -- fewer than the values, and the first value needs no further thread: either a thread is awake, and
  -- returns the first value as soon as it gets the mutex, or a `notify_one` is to come, it wakes a
  -- thread, and that thread returns the first value.
  pub no_lost_wakeup :
      (max_size : ℕ) (policy : OverflowPolicy) (s : Threads A) (v : A) (vs : List A)
      → Reach (begin max_size policy) s
      → s.shared.queue ≡ v ∷ vs
      → 0 < s.sleeping
      → (length s.shared.queue ≤ s.woken + s.pending)
        × (((0 < s.woken) × HandsOver s (resume_wait s) v vs)
            ⊎ ((0 < s.pending)
                × (0 < (notify_one s).woken)
                × HandsOver s (resume_wait (notify_one s)) v vs))
  no_lost_wakeup max_size policy s v vs r e l =
      let awake = Reach-IsAwake r (λ lt. omega (arith, lt)) l in
      (
        awake,
        elim (Bool-cases (ltb 0 s.woken)) [
          | inl w ↦ inl (ground (arith, w), resume_takes s v vs e)
          | inr w ↦
              let pending : 0 < s.pending = ground (arith, w, awake, ap length e) in
              let (woken, same, kept) = notify_wakes s l in
              let (served, left) = resume_takes (notify_one s) v vs (ap (λ q. q.queue) same ∙ e) in
              inr (pending, woken, (served ∙ ap (λ x. x ++ v ∷ []) kept, left))
        ],
      )
