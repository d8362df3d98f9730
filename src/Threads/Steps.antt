-- ===== src/Threads/Steps.antt =====
-- NachOS-4.0/code/threads/synch.cc, thread.cc and scheduler.cc: every step of the threads keeps the invariant.
use hcmus_csc10007_operating.Common.{
  ℕ, ◌≡◌, refl, Option, none, some, List, [], ◌∷◌, assign_at, ◌>>=◌, arith, Bool-cases, inl, inr,
}
use hcmus_csc10007_operating.Threads.{
  SemaphoreId, plain, of_lock, of_waiter, Call, sem_p, sem_v, acquire, release, wait, signal,
  broadcast, fork, yield, finish_thread, Stage, in_user_code, calling, recording_holder, unlocking,
  finished, Kernel, set_now, ready_to_run, new_thread, thread_fork, thread_yield,
}
use hcmus_csc10007_operating.Threads.Synch.{
  semaphore_v, advance, lock_release, condition_wait, condition_signal, condition_broadcast,
  perform_call, perform_stage, perform, Step, calls, performs, preempts, wakes_next,
  is_held_by_current_thread, interrupts, interrupts_idle, initial_kernel, Reachable, begins,
  then_step,
}
use hcmus_csc10007_operating.Threads.Queues.{
  waits, Valid, Yields, alone, yields, thread_yield-Yields, Wakes, idles, wakes, wake_next-Wakes,
}
use hcmus_csc10007_operating.Threads.Calls.{yields-Valid, wakes-Valid, set_now-Valid}
use hcmus_csc10007_operating.Threads.Waking.{semaphore_v-Gives, Gives-Valid}
use hcmus_csc10007_operating.Threads.Routines.{
  Keeps, refused, sound, Keeps-some, Advances, to_user, to_call, advance-Advances, advance-Valid,
  acquire-Valid, p-Valid, v-Valid, finish_thread-Valid, fork-Valid, now-fork, wait-Valid,
}

abbrev Sound : Option Kernel → Type 0
Sound = Keeps Valid

yield-Sound : (k : Kernel) → Valid k → k.sleeping ≡ none → Sound (thread_yield k)
yield-Sound k v s = go _ (thread_yield-Yields k v.none_destroyed)
  where
    go : (o : Option Kernel) → Yields k o → Sound o
    go _ (alone e) = sound k v
    go _ (yields next ts e) = sound _ (yields-Valid k v next ts e s)

-- A call that is not in `P`.
module _ (k : Kernel) (v : Valid k) (s : k.sleeping ≡ none)
    (w : (j : SemaphoreId) → waits (k.now k.current_thread) j ≡ 0) where
  signal-Sound : (c l : ℕ) → Sound (condition_signal c l k >>= λ (j : Kernel). some (advance j))
  unfolding condition_signal
  signal-Sound c l = elim (Bool-cases (is_held_by_current_thread l k)) [
    | inl h ↦ rw h (go (k.wait_queue c))
    | inr h ↦ rw h refused
  ]
    where
      go :
          (ws : List ℕ)
          → Sound (
              some (
                advance (elim ws [
                  | [] ↦ k
                  | w ∷ ws ↦
                      semaphore_v
                        (of_waiter w)
                        (record k { wait_queue = assign_at k.wait_queue c ws })
                ])))
      go [] = sound _ (advance-Valid k v s w)
      go (n ∷ ws) =
          sound _
            (v-Valid (record k { wait_queue = assign_at k.wait_queue c ws }) v s (of_waiter n) w)

  broadcast-Sound : (c l : ℕ) → Sound (some (condition_broadcast c l k))
  unfolding condition_broadcast
  broadcast-Sound c l = go (k.wait_queue c)
    where
      go :
          (ws : List ℕ)
          → Sound (
              some (elim ws [
                | [] ↦ advance k
                | _ ↦ record (set_now k (calling (signal c l))) {
                  later =
                      assign_at k.later k.current_thread (broadcast c l ∷ k.later k.current_thread);
                }
              ]))
      go [] = sound _ (advance-Valid k v s w)
      go (n ∷ ws) = sound _ (set_now-Valid k v s w (calling (signal c l)))

  -- A thread that is created stands at the end of the ready list.
  forks-Sound : Sound (some (advance (thread_fork k.next_thread (new_thread k))))
  unfolding thread_fork new_thread ready_to_run
  forks-Sound = sound _ (
      advance-Valid (thread_fork k.next_thread (new_thread k)) (fork-Valid k v s) s
        (now-fork k v s w))

  yields-Sound : Sound (thread_yield (advance k))
  yields-Sound = go (advance k) (advance-Advances k) (advance-Valid k v s w)
    where
      go : (j : Kernel) → Advances k j → Valid j → Sound (thread_yield j)
      go _ to_user u = yield-Sound _ u s
      go _ (to_call c cs e) u = yield-Sound _ u s

  release-Sound : (l : ℕ) → Sound (lock_release l k)
  unfolding lock_release
  release-Sound l = elim (Bool-cases (is_held_by_current_thread l k)) [
    | inl h ↦ rw h (sound _ (set_now-Valid k v s w (unlocking l)))
    | inr h ↦ rw h refused
  ]

  wait-Sound : (c l : ℕ) → Sound (condition_wait c l k)
  unfolding condition_wait
  wait-Sound c l = elim (Bool-cases (is_held_by_current_thread l k)) [
    | inl h ↦ rw h (sound _ (wait-Valid k v s w (of_waiter k.next_waiter) (calling (release l))))
    | inr h ↦ rw h refused
  ]

perform_call-Sound :
    (k : Kernel)
    → Valid k
    → k.sleeping ≡ none
    → (c : Call) → k.now k.current_thread ≡ calling c
    → Sound (perform_call c k)
unfolding perform_call
perform_call-Sound k v s (sem_p i) e = sound _ (p-Valid k v s i (λ j. rw e refl))
perform_call-Sound k v s (sem_v i) e = sound _ (v-Valid k v s i (λ j. rw e refl))
perform_call-Sound k v s (acquire l) e =
    sound _ (acquire-Valid k v s (of_lock l) (recording_holder l) (λ j. rw e refl))
perform_call-Sound k v s (release l) e = release-Sound k v s (λ j. rw e refl) l
perform_call-Sound k v s (wait c l) e = wait-Sound k v s (λ j. rw e refl) c l
perform_call-Sound k v s (signal c l) e = signal-Sound k v s (λ j. rw e refl) c l
perform_call-Sound k v s (broadcast c l) e = broadcast-Sound k v s (λ j. rw e refl) c l
perform_call-Sound k v s fork e = forks-Sound k v s (λ j. rw e refl)
perform_call-Sound k v s yield e = yields-Sound k v s (λ j. rw e refl)
perform_call-Sound k v s finish_thread e = sound _ (finish_thread-Valid k v s (λ j. rw e refl))

perform_stage-Sound :
    (k : Kernel)
    → Valid k
    → k.sleeping ≡ none
    → (x : Stage) → k.now k.current_thread ≡ x
    → Sound (perform_stage x k)
unfolding perform_stage
perform_stage-Sound k v s in_user_code e = refused
perform_stage-Sound k v s (calling c) e = perform_call-Sound k v s c e
perform_stage-Sound k v s (recording_holder l) e = sound _ (advance-Valid _ v s (λ j. rw e refl))
perform_stage-Sound k v s (unlocking l) e = sound _ (v-Valid k v s (of_lock l) (λ j. rw e refl))
perform_stage-Sound k v s finished e = refused

-- A step of the threads keeps the invariant.
pub Step-Valid : (k k' : Kernel) → Valid k → Step k k' → Valid k'
unfolding perform
Step-Valid k _ v (calls c s u a) = set_now-Valid k v s (λ j. rw u refl) (calling c)
Step-Valid k k' v (performs _ s e) =
    Keeps-some Valid _ k' e (perform_stage-Sound k v s (k.now k.current_thread) refl)
Step-Valid k k' v (preempts _ s e) = Keeps-some Valid _ k' e (yield-Sound k v s)
Step-Valid k k' v (wakes_next f _ s e) = go _ (wake_next-Wakes k f v s) e
  where
    go : (o : Option Kernel) → Wakes k o → o ≡ some k' → Valid k'
    go _ (idles r) q = ground arith
    go _ (wakes next ts r) q = Keeps-some Valid _ k' q (sound _ (wakes-Valid k v next ts r f s))
Step-Valid k _ v (interrupts n s) = Gives-Valid (plain n) k _ v (semaphore_v-Gives (plain n) k)
Step-Valid k _ v (interrupts_idle n f s r) =
    Gives-Valid (plain n) k _ v (semaphore_v-Gives (plain n) k)

initial_kernel-Valid : (values : ℕ → ℕ) → Valid (initial_kernel values)
unfolding initial_kernel
initial_kernel-Valid values = record {
  ready_once = λ t. ground arith;
  queued_once = λ t i. ground arith;
  current_running = λ e. refl;
  current_stopped = λ f e. ground arith;
  only_current = λ t e. ground arith;
  finishing = λ e. ground arith;
  none_destroyed = refl;
  unborn = λ t l. ground arith;
  unborn_now = λ t l. refl;
  covered = λ i. ground arith;
}

-- In every kernel that the steps reach, a ready thread stands once in the ready list, a blocked one
-- in the queue of one semaphore at most and there once, no other thread in any of them; no thread
-- but the current one is running; no thread is left to be destroyed; and a semaphore with waiters
-- has no more units than there are threads about to test its value.
pub Reachable-Valid : (values : ℕ → ℕ) (k : Kernel) → Reachable values k → Valid k
Reachable-Valid values _ begins = initial_kernel-Valid values
Reachable-Valid values k (then_step j _ r e) = Step-Valid j k (Reachable-Valid values j r) e
