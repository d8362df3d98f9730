-- ===== src/Threads/Locking.antt =====
-- NachOS-4.0/code/threads/synch.cc: every step of the threads keeps each lock with one owner at most.
use hcmus_csc10007_operating.Common.{ℕ, ◌≡◌, refl, ◌∙◌, true, Option, none, arith}
use hcmus_csc10007_operating.Threads.{
  plain, of_lock, of_waiter, Call, sem_p, sem_v, acquire, release, wait, signal, broadcast, fork,
  yield, finish_thread, Stage, in_user_code, calling, recording_holder, unlocking, finished, Kernel,
  thread_sleep, thread_finish,
}
use hcmus_csc10007_operating.Threads.Synch.{
  Allowed, may_p, may_v, may_acquire, may_release, may_wait, may_signal, may_broadcast, may_fork,
  may_yield, may_finish, advance, perform_call, perform_stage, perform, Step, calls, performs,
  preempts, wakes_next, interrupts, interrupts_idle, initial_kernel, Reachable, begins, then_step,
}
use hcmus_csc10007_operating.Threads.Queues.{Valid, Wakes, idles, wakes, wake_next-Wakes}
use hcmus_csc10007_operating.Threads.Waking.{semaphore_v-Gives}
use hcmus_csc10007_operating.Threads.Routines.{refused, sound, Keeps-some}
use hcmus_csc10007_operating.Threads.Steps.{Reachable-Valid}
use hcmus_csc10007_operating.Threads.Exclusion.{is_public, free, Excluding, LockState-assign_at}
use hcmus_csc10007_operating.Threads.Renewal.{renew, advance_outside, Gives-Excluding}
use hcmus_csc10007_operating.Threads.Mutual.{
  p-Excluding, acquire-Excluding, record-Excluding, unlock-Excluding,
}
use hcmus_csc10007_operating.Threads.Holding.{
  Safe, yield-Safe, advance-same, signal-Safe, v-Safe, broadcast-Safe, wait-Safe, release-Safe,
  fork-Safe,
}

perform_call-Safe :
    (k : Kernel)
    → Valid k
    → Excluding k
    → k.sleeping ≡ none
    → (c : Call) → k.now k.current_thread ≡ calling c
    → Safe (perform_call c k)
unfolding perform_call thread_finish thread_sleep
perform_call-Safe k v x s (sem_p (plain n)) e =
    sound _ (p-Excluding k x (plain n) (λ l. refl) (λ l. rw e refl))
perform_call-Safe k v x s (sem_p (of_lock l)) e =
    let q = x.now_public k.current_thread in ground arith
perform_call-Safe k v x s (sem_p (of_waiter n)) e =
    sound _ (p-Excluding k x (of_waiter n) (λ l. refl) (λ l. rw e refl))
perform_call-Safe k v x s (sem_v (plain n)) e =
    sound _ (v-Safe k v x (λ l. rw e refl) (plain n) (λ l. refl))
perform_call-Safe k v x s (sem_v (of_lock l)) e =
    let q = x.now_public k.current_thread in ground arith
perform_call-Safe k v x s (sem_v (of_waiter n)) e =
    sound _ (v-Safe k v x (λ l. rw e refl) (of_waiter n) (λ l. refl))
perform_call-Safe k v x s (acquire l) e = sound _ (acquire-Excluding k x l (λ i. rw e refl))
perform_call-Safe k v x s (release l) e = release-Safe k v x (λ i. rw e refl) l
perform_call-Safe k v x s (wait c l) e = wait-Safe k v x (λ i. rw e refl) c l
perform_call-Safe k v x s (signal c l) e = signal-Safe k v x (λ i. rw e refl) c l
perform_call-Safe k v x s (broadcast c l) e = sound _ (broadcast-Safe k v x (λ i. rw e refl) c l e)
perform_call-Safe k v x s fork e = sound _ (fork-Safe k v x (λ i. rw e refl) s)
perform_call-Safe k v x s yield e =
    yield-Safe (advance k) (advance-same k ∙ v.none_destroyed)
      (advance_outside k x (λ i. rw e refl))
perform_call-Safe k v x s finish_thread e = sound _ (
    renew k k.later k.semaphores k.lock_holder finished x.now_public x.later_public refl
      (λ i. LockState-assign_at i _ _ k.now k.current_thread _ (rw e refl) refl (x.locks i)))

perform_stage-Safe :
    (k : Kernel)
    → Valid k
    → Excluding k
    → k.sleeping ≡ none
    → (y : Stage) → k.now k.current_thread ≡ y
    → Safe (perform_stage y k)
unfolding perform_stage
perform_stage-Safe k v x s in_user_code e = refused
perform_stage-Safe k v x s (calling c) e = perform_call-Safe k v x s c e
perform_stage-Safe k v x s (recording_holder l) e = sound _ (record-Excluding k x l e)
perform_stage-Safe k v x s (unlocking l) e = sound _ (unlock-Excluding k x l e)
perform_stage-Safe k v x s finished e = refused

Allowed-public : (c : Call) → Allowed c → is_public c ≡ true
Allowed-public _ (may_p n) = refl
Allowed-public _ (may_v n) = refl
Allowed-public _ (may_acquire l) = refl
Allowed-public _ (may_release l) = refl
Allowed-public _ (may_wait c l) = refl
Allowed-public _ (may_signal c l) = refl
Allowed-public _ (may_broadcast c l) = refl
Allowed-public _ may_fork = refl
Allowed-public _ may_yield = refl
Allowed-public _ may_finish = refl

Step-Excluding : (k k' : Kernel) → Valid k → Excluding k → Step k k' → Excluding k'
unfolding perform
Step-Excluding k _ v x (calls c s u a) =
    renew k k.later k.semaphores k.lock_holder (calling c) x.now_public x.later_public
      (Allowed-public c a)
      (λ i. LockState-assign_at i _ _ k.now k.current_thread _ (rw u refl) refl (x.locks i))
Step-Excluding k k' v x (performs _ s e) =
    Keeps-some Excluding _ k' e (perform_stage-Safe k v x s (k.now k.current_thread) refl)
Step-Excluding k k' v x (preempts _ s e) =
    Keeps-some Excluding _ k' e (yield-Safe k v.none_destroyed x)
Step-Excluding k k' v x (wakes_next f _ s e) =
    Keeps-some Excluding _ k' e (go _ (wake_next-Wakes k f v s))
  where
    go : (o : Option Kernel) → Wakes k o → Safe o
    go _ (idles r) = refused
    go _ (wakes next ts r) = sound _ x
Step-Excluding k _ v x (interrupts n s) =
    Gives-Excluding (plain n) k _ (λ l. refl) x (semaphore_v-Gives (plain n) k)
Step-Excluding k _ v x (interrupts_idle n f s r) =
    Gives-Excluding (plain n) k _ (λ l. refl) x (semaphore_v-Gives (plain n) k)

initial_kernel-Excluding : (values : ℕ → ℕ) → Excluding (initial_kernel values)
unfolding initial_kernel
initial_kernel-Excluding values = record {
  now_public = λ t. refl;
  later_public = λ t. refl;
  locks = λ l. free refl refl (λ t. refl);
}

pub Reachable-Excluding : (values : ℕ → ℕ) (k : Kernel) → Reachable values k → Excluding k
Reachable-Excluding values _ begins = initial_kernel-Excluding values
Reachable-Excluding values k (then_step j _ r e) =
    Step-Excluding j k (Reachable-Valid values j r) (Reachable-Excluding values j r) e
