-- ===== src/Queue/Laws.antt =====
-- Runs of calls, and the limit of the queue.
use jaytwo_library.Prelude.{
  ℕ, ◌≤◌, Bool, List, [], ◌∷◌, ◌++◌, Option, none, some, length, ◌≡◌, ◌≢◌, ◌⊎◌, inr, refl, ap,
  arith, if◌then◌else◌, length-append,
}
use jaytwo_library.Queue.{
  ConcurrentQueue, pop_front, emplace_impl, enqueue, take_front, try_dequeue, dequeue_if,
  take_front_if, clear,
}

-- The calls of the threads, in the order in which they get the mutex.
pub data Call {ℓ} (A : Type ℓ) : Type ℓ where
  put : A → Call A
  take : Call A
  take_if : (A → ℕ → Bool) → Call A
  wipe : Call A

module _ {ℓ} {A : Type ℓ} where
  -- A limit of 0 is none.
  pub record IsBounded (q : ConcurrentQueue A) : Type 0 where
    pub within : (q.max_size ≡ 0) ⊎ (length q.queue ≤ q.max_size)

  abbrev pub listed : Option A → List A
  listed none = []
  listed (some v) = v ∷ []

  -- A call: the queue, what went in and what came out.
  unfoldable pub call : ConcurrentQueue A → Call A → ConcurrentQueue A × List A × List A
  call q (put v) = let (q', done) = enqueue q v in (q', (if done then v ∷ [] else []), [])
  call q take = let (q', out) = try_dequeue q in (q', [], listed out)
  call q (take_if pred) = let (q', out) = dequeue_if q pred in (q', [], listed out)
  call q wipe = let (q', n) = clear q in (q', [], q.queue)

  -- A run of calls, with what went in and what came out in all.
  unfoldable pub run : ConcurrentQueue A → List (Call A) → ConcurrentQueue A × List A × List A
  run q [] = (q, [], [])
  run q (c ∷ cs) =
      let (q', ins, outs) = call q c in
      let (q'', ins', outs') = run q' cs in (q'', ins ++ ins', outs ++ outs')

  length-pop_front :
      (v : A) (xs : List A) (n : ℕ) → n ≢ 0 → length xs ≤ n → length (pop_front xs ++ v ∷ []) ≤ n
  length-pop_front v [] n h le = omega arith
  length-pop_front v (x ∷ xs) n h le = omega (arith, length-append xs (v ∷ []))

  put-IsBounded : (q : ConcurrentQueue A) (v : A) → IsBounded q → IsBounded (emplace_impl q v).0
  unfolding emplace_impl
  put-IsBounded q v b = record {
    within =
        ground
          (arith, length-pop_front v q.queue q.max_size, length-append q.queue (v ∷ []), b.within);
  }

  take-IsBounded :
      (xs : List A) (q : ConcurrentQueue A)
      → q.queue ≡ xs
      → IsBounded q
      → IsBounded (take_front xs q).0
  unfolding take_front
  take-IsBounded [] q e b = b
  take-IsBounded (x ∷ xs) q e b = record { within = ground (arith, b.within, ap length e) }

  take_if-IsBounded :
      (pred : A → ℕ → Bool) (xs : List A) (q : ConcurrentQueue A)
      → q.queue ≡ xs
      → IsBounded q
      → IsBounded (take_front_if pred xs q).0
  unfolding take_front_if
  take_if-IsBounded pred [] q e b = b
  take_if-IsBounded pred (x ∷ xs) q e b = record { within = ground (arith, b.within, ap length e) }

  call-IsBounded : (q : ConcurrentQueue A) (c : Call A) → IsBounded q → IsBounded (call q c).0
  unfolding call enqueue try_dequeue dequeue_if clear
  call-IsBounded q (put v) b = put-IsBounded q v b
  call-IsBounded q take b = take-IsBounded q.queue q refl b
  call-IsBounded q (take_if pred) b = take_if-IsBounded pred q.queue q refl b
  call-IsBounded q wipe b = record { within = inr (omega arith) }

  -- A queue within its limit, or without one, stays so whatever the threads call and in whatever
  -- order.
  pub run-IsBounded :
      (q : ConcurrentQueue A) (cs : List (Call A)) → IsBounded q → IsBounded (run q cs).0
  unfolding run
  run-IsBounded q [] b = b
  run-IsBounded q (c ∷ cs) b = run-IsBounded (call q c).0 cs (call-IsBounded q c b)
