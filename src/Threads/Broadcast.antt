-- ===== src/Threads/Broadcast.antt =====
-- NachOS-4.0/code/threads/synch.cc: the loop of `Condition::Broadcast` ends.
use hcmus_csc10007_operating.Common.{
  ℕ, zero, suc, ◌*◌, ◌≡◌, refl, ap, ◌∙◌, true, Option, some, List, [], ◌∷◌, ◌==◌, assign_at, ◌>>=◌,
  arith, length, ◌+◌, if◌then◌else◌, Bool-cases, inl, inr,
}
use hcmus_csc10007_operating.Threads.Queues.{count}
use hcmus_csc10007_operating.Threads.Routines.{Advances, to_user, to_call, advance-Advances}
use hcmus_csc10007_operating.Threads.{
  SemaphoreId, Semaphore, of_waiter, Call, signal, broadcast, calling, Kernel, set_now,
}
use hcmus_csc10007_operating.Threads.Synch.{
  semaphore_v, advance, is_held_by_current_thread, condition_signal, condition_broadcast,
  perform_call, perform_stage, perform,
}
use hcmus_csc10007_operating.Threads.Waking.{Gives, kept, woke, semaphore_v-Gives}

-- `n` sections of the current thread that nothing interrupts.
abbrev pub perform_times : ℕ → Kernel → Option Kernel
perform_times zero k = some k
perform_times (suc n) k = do k1 ← perform k; perform_times n k1

-- The current thread is at the head of the loop, with the lock, and `ws` are the waiters.
pub record Broadcasting (c l : ℕ) (ws : List ℕ) (cs : List Call) (k : Kernel) : Type 0 where
  pub at_loop : k.now k.current_thread ≡ calling (broadcast c l)
  pub holds : k.lock_holder l ≡ some k.current_thread
  pub waiters : k.wait_queue c ≡ ws
  pub after : k.later k.current_thread ≡ cs

-- A pass: the call of `Signal`, and its `V`.
signalling : ℕ → ℕ → Kernel → Kernel
signalling c l k = record (set_now k (calling (signal c l))) {
  later = assign_at k.later k.current_thread (broadcast c l ∷ k.later k.current_thread);
}

first_half :
    (c l w : ℕ) (ws : List ℕ) (cs : List Call) (k : Kernel)
    → Broadcasting c l (w ∷ ws) cs k
    → perform k ≡ some (signalling c l k)
unfolding perform perform_stage perform_call condition_broadcast signalling
first_half c l w ws cs k b = let a = b.at_loop in let q = b.waiters in ground arith

given : ℕ → ℕ → List ℕ → Kernel → Kernel
given c l ws k = record (signalling c l k) { wait_queue = assign_at k.wait_queue c ws }

signals :
    (c l w : ℕ) (ws : List ℕ) (cs : List Call) (k : Kernel)
    → Broadcasting c l (w ∷ ws) cs k
    → perform (signalling c l k) ≡ some (advance (semaphore_v (of_waiter w) (given c l ws k)))
unfolding perform perform_stage perform_call condition_signal is_held_by_current_thread signalling
    given
signals c l w ws cs k b =
    let h = b.holds in
    let self : (k.current_thread == k.current_thread) ≡ true = ground arith in
    let held : is_held_by_current_thread l (signalling c l k) ≡ true = ground arith in
    let q = b.waiters in
    let sent : condition_signal c l (signalling c l k)
        ≡ some (semaphore_v (of_waiter w) (given c l ws k)) =
      ground arith in
    rw self (ap (λ (o : Option Kernel). o >>= λ (j : Kernel). some (advance j)) sent)

-- The loop's test comes next, with one waiter less.
after_signal :
    (c l : ℕ) (ws : List ℕ) (cs : List Call) (j : Kernel)
    → j.later j.current_thread ≡ broadcast c l ∷ cs
    → j.lock_holder l ≡ some j.current_thread
    → j.wait_queue c ≡ ws
    → Broadcasting c l ws cs (advance j)
unfolding advance
after_signal c l ws cs j a h q =
    let e : advance j ≡ record (set_now j (calling (broadcast c l))) {
      later = assign_at j.later j.current_thread cs;
    } =
      ground arith in
    let self : (j.current_thread == j.current_thread) ≡ true = ground arith in
    subst_kernel e (record { at_loop = rw self refl; holds = h; waiters = q; after = rw self refl })
  where
    subst_kernel : {x y : Kernel} → x ≡ y → Broadcasting c l ws cs y → Broadcasting c l ws cs x
    subst_kernel e b = rw e b

next_pass :
    (c l w : ℕ) (ws : List ℕ) (cs : List Call) (k j : Kernel)
    → Broadcasting c l (w ∷ ws) cs k
    → Gives (of_waiter w) (given c l ws k) j
    → Broadcasting c l ws cs (advance j)
unfolding signalling given
next_pass c l w ws cs k _ b (kept e) =
    let a = b.after in let h = b.holds in after_signal c l ws cs _ (ground arith) h (ground arith)
next_pass c l w ws cs k _ b (woke t ts e) =
    let a = b.after in let h = b.holds in after_signal c l ws cs _ (ground arith) h (ground arith)

-- A `V` on a waiter's semaphore is one unit more there, and none on the others.
given_value :
    (c l w : ℕ) (ws : List ℕ) (k j : Kernel)
    → Gives (of_waiter w) (given c l ws k) j
    → (x : ℕ)
    → (j.semaphores (of_waiter x)).value
      ≡ (k.semaphores (of_waiter x)).value + (if x == w then 1 else 0)
unfolding signalling given
given_value c l w ws k _ (kept e) x = ground arith
given_value c l w ws k _ (woke t ts e) x = ground arith

advance-semaphores : (k : Kernel) (s : SemaphoreId) → (advance k).semaphores s ≡ k.semaphores s
advance-semaphores k s = go (advance k) (advance-Advances k)
  where
    go : (j : Kernel) → Advances k j → j.semaphores s ≡ k.semaphores s
    go _ to_user = refl
    go _ (to_call c cs e) = refl

-- The lock is held and the current thread is in `Broadcast`: after two sections for each waiter and
-- one more, which nothing interrupts, the loop has ended with no waiter left, each waiter's semaphore
-- has got one unit and no other waiter's any, and the thread goes on after the call with the lock.
pub broadcast_ends :
    (c l : ℕ) (ws : List ℕ) (cs : List Call) (k : Kernel)
    → Broadcasting c l ws cs k
    → (j : Kernel) × (perform_times (suc (2 * length ws)) k ≡ some (advance j))
      × (j.wait_queue c ≡ [])
      × (j.later j.current_thread ≡ cs)
      × (j.lock_holder l ≡ some j.current_thread)
      × ((x : ℕ)
          → (j.semaphores (of_waiter x)).value ≡ (k.semaphores (of_waiter x)).value + count x ws)
unfolding perform perform_stage perform_call condition_broadcast
broadcast_ends c l [] cs k b =
    let a = b.at_loop in
    let q = b.waiters in (k, ground arith, q, b.after, b.holds, λ x. omega arith)
broadcast_ends c l (w ∷ ws) cs k b =
    let p = first_half c l w ws cs k b in
    let q = signals c l w ws cs k b in
    let given_k = semaphore_v-Gives (of_waiter w) (given c l ws k) in
    let n =
      next_pass c l w ws cs k (semaphore_v (of_waiter w) (given c l ws k)) b
        (semaphore_v-Gives (of_waiter w) (given c l ws k)) in
    let (j, r, e, f, g, u) =
      broadcast_ends c l ws cs (advance (semaphore_v (of_waiter w) (given c l ws k))) n in
    let two : 2 * length (w ∷ ws) ≡ suc (suc (2 * length ws)) = omega arith in
    (
      j,
      ap (λ (m : ℕ). perform_times (suc m) k) two ∙ pass (suc (2 * length ws)) p q r,
      e,
      f,
      g,
      λ x.
          let a =
            ap (λ (s : Semaphore). s.value)
              (advance-semaphores (semaphore_v (of_waiter w) (given c l ws k)) (of_waiter x)) in
          let b = given_value c l w ws k _ given_k x in
          let d = u x in elim (Bool-cases (x == w)) [ inl z ↦ ground arith | inr z ↦ ground arith ],
    )
  where
    pass :
        (m : ℕ) {x y : Kernel} {o : Option Kernel}
        → perform k ≡ some x
        → perform x ≡ some y
        → perform_times m y ≡ o
        → perform_times (suc (suc m)) k ≡ o
    pass m p q r = rw p (rw q r)
