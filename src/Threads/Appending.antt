-- ===== src/Threads/Appending.antt =====
-- NachOS-4.0/code/lib/list.cc under scheduler.cc and synch.cc: what is appended to a list of threads, or of
-- waiters' semaphores, is not in it yet.
use hcmus_csc10007_operating.Common.{
  ℕ, suc, ◌≤◌, ◌≡◌, refl, Option, none, some, List, [], ◌∷◌, ◌++◌, assign_at, ◌>>=◌, arith,
  Bool-cases, inl, inr,
}
use hcmus_csc10007_operating.Threads.{
  SemaphoreId, plain, of_lock, of_waiter, Call, sem_p, sem_v, acquire, release, wait, signal,
  broadcast, fork, yield, finish_thread, Stage, in_user_code, calling, recording_holder, unlocking,
  finished, Kernel, set_now, ready_to_run, new_thread, thread_fork, thread_yield, thread_sleep,
  thread_finish,
}
use hcmus_csc10007_operating.Threads.Synch.{
  semaphore_v, advance, lock_release, condition_wait, condition_signal, condition_broadcast,
  perform_call, perform_stage, perform, Step, calls, performs, preempts, wakes_next,
  is_held_by_current_thread, interrupts, interrupts_idle, initial_kernel, Reachable, begins,
  then_step, p_then,
}
use hcmus_csc10007_operating.Threads.Queues.{
  count, count-append, Valid, Yields, alone, yields, thread_yield-Yields, Wakes, idles, wakes,
  wake_next-Wakes,
}
use hcmus_csc10007_operating.Threads.Waking.{Gives, kept, woke, semaphore_v-Gives}
use hcmus_csc10007_operating.Threads.Routines.{
  Keeps, refused, sound, Keeps-some, Advances, to_user, to_call, advance-Advances, Passes, sleeps,
  takes, p_then-Passes,
}
use hcmus_csc10007_operating.Threads.Steps.{Reachable-Valid}

-- The semaphores in the queue of a condition have been made.
abbrev Fresh : Kernel → Type 0
Fresh k = (c w : ℕ) → k.next_waiter ≤ w → count w (k.wait_queue c) ≡ 0

advance-Fresh : (k : Kernel) → Fresh k → Fresh (advance k)
advance-Fresh k f = go (advance k) (advance-Advances k)
  where
    go : (j : Kernel) → Advances k j → Fresh j
    go _ to_user = f
    go _ (to_call c cs e) = f

Gives-Fresh : (s : SemaphoreId) (k j : Kernel) → Fresh k → Gives s k j → Fresh j
Gives-Fresh s k _ f (kept e) = f
Gives-Fresh s k _ f (woke t ts e) = f

v-Fresh : (s : SemaphoreId) (k : Kernel) → Fresh k → Fresh (semaphore_v s k)
v-Fresh s k f = Gives-Fresh s k _ f (semaphore_v-Gives s k)

yield-Fresh : (k : Kernel) → k.to_be_destroyed ≡ none → Fresh k → Keeps Fresh (thread_yield k)
yield-Fresh k d f = go _ (thread_yield-Yields k d)
  where
    go : (o : Option Kernel) → Yields k o → Keeps Fresh o
    go _ (alone e) = sound k f
    go _ (yields next ts e) = sound _ f

p_then-Fresh :
    (s : SemaphoreId) (after : Kernel → Kernel) (k : Kernel)
    → Fresh k
    → ((j : Kernel) → Fresh j → Fresh (after j))
    → Fresh (p_then s after k)
unfolding thread_sleep
p_then-Fresh s after k f g = go _ (p_then-Passes s after k)
  where
    go : (j : Kernel) → Passes s after k j → Fresh j
    go _ (sleeps z) = f
    go _ (takes z) = g _ f

module _ (k : Kernel) (f : Fresh k) where
  signal-Fresh :
      (c l : ℕ) → Keeps Fresh (condition_signal c l k >>= λ (j : Kernel). some (advance j))
  unfolding condition_signal
  signal-Fresh c l = elim (Bool-cases (is_held_by_current_thread l k)) [
    | inl h ↦ rw h (go (k.wait_queue c) refl)
    | inr h ↦ rw h refused
  ]
    where
      go :
          (ws : List ℕ)
          → k.wait_queue c ≡ ws
          → Keeps Fresh (
              some (
                advance (elim ws [
                  | [] ↦ k
                  | w ∷ ws ↦
                      semaphore_v
                        (of_waiter w)
                        (record k { wait_queue = assign_at k.wait_queue c ws })
                ])))
      go [] e = sound _ (advance-Fresh k f)
      go (n ∷ ws) e = sound _ (
          advance-Fresh _
            (v-Fresh (of_waiter n) _ (λ d w l. let a = f d w l in let b = f c w l in ground arith)))

  broadcast-Fresh : (c l : ℕ) → Keeps Fresh (some (condition_broadcast c l k))
  unfolding condition_broadcast
  broadcast-Fresh c l = go (k.wait_queue c)
    where
      go :
          (ws : List ℕ)
          → Keeps Fresh (
              some (elim ws [
                | [] ↦ advance k
                | _ ↦ record (set_now k (calling (signal c l))) {
                  later =
                      assign_at k.later k.current_thread (broadcast c l ∷ k.later k.current_thread);
                }
              ]))
      go [] = sound _ (advance-Fresh k f)
      go (n ∷ ws) = sound _ f

  release-Fresh : (l : ℕ) → Keeps Fresh (lock_release l k)
  unfolding lock_release
  release-Fresh l = elim (Bool-cases (is_held_by_current_thread l k)) [
    | inl h ↦ rw h (sound _ f)
    | inr h ↦ rw h refused
  ]

  longer_queue :
      (c d w : ℕ)
      → suc k.next_waiter ≤ w
      → count w (assign_at k.wait_queue c (k.wait_queue c ++ (k.next_waiter ∷ [])) d) ≡ 0
  longer_queue c d w b =
      let a = f d w (omega arith) in
      let e = f c w (omega arith) in
      let g = count-append w k.next_waiter (k.wait_queue c) in ground arith

  wait-Fresh : (c l : ℕ) → Keeps Fresh (condition_wait c l k)
  unfolding condition_wait
  wait-Fresh c l = elim (Bool-cases (is_held_by_current_thread l k)) [
    | inl h ↦ rw h (sound _ (λ d w b. longer_queue c d w b))
    | inr h ↦ rw h refused
  ]

  fork-Fresh : Fresh (advance (thread_fork k.next_thread (new_thread k)))
  unfolding thread_fork new_thread ready_to_run
  fork-Fresh = advance-Fresh _ f

perform_call-Fresh :
    (k : Kernel) → k.to_be_destroyed ≡ none → Fresh k → (c : Call) → Keeps Fresh (perform_call c k)
unfolding perform_call thread_finish thread_sleep
perform_call-Fresh k d f (sem_p i) = sound _ (p_then-Fresh i advance k f advance-Fresh)
perform_call-Fresh k d f (sem_v i) = sound _ (advance-Fresh _ (v-Fresh i k f))
perform_call-Fresh k d f (acquire l) = sound _ (p_then-Fresh (of_lock l) _ k f (λ j g. g))
perform_call-Fresh k d f (release l) = release-Fresh k f l
perform_call-Fresh k d f (wait c l) = wait-Fresh k f c l
perform_call-Fresh k d f (signal c l) = signal-Fresh k f c l
perform_call-Fresh k d f (broadcast c l) = broadcast-Fresh k f c l
perform_call-Fresh k d f fork = sound _ (fork-Fresh k f)
perform_call-Fresh k d f yield = go (advance k) (advance-Advances k)
  where
    go : (j : Kernel) → Advances k j → Keeps Fresh (thread_yield j)
    go _ to_user = yield-Fresh _ d f
    go _ (to_call c cs e) = yield-Fresh _ d f
perform_call-Fresh k d f finish_thread = sound _ f

perform_stage-Fresh :
    (k : Kernel)
    → k.to_be_destroyed ≡ none
    → Fresh k
    → (x : Stage) → Keeps Fresh (perform_stage x k)
unfolding perform_stage
perform_stage-Fresh k d f in_user_code = refused
perform_stage-Fresh k d f (calling c) = perform_call-Fresh k d f c
perform_stage-Fresh k d f (recording_holder l) = sound _ (advance-Fresh _ f)
perform_stage-Fresh k d f (unlocking l) = sound _ (advance-Fresh _ (v-Fresh (of_lock l) k f))
perform_stage-Fresh k d f finished = refused

Step-Fresh : (k k' : Kernel) → Valid k → Fresh k → Step k k' → Fresh k'
unfolding perform
Step-Fresh k _ v f (calls c s u a) = f
Step-Fresh k k' v f (performs _ s e) =
    Keeps-some Fresh _ k' e (perform_stage-Fresh k v.none_destroyed f (k.now k.current_thread))
Step-Fresh k k' v f (preempts _ s e) = Keeps-some Fresh _ k' e (yield-Fresh k v.none_destroyed f)
Step-Fresh k k' v f (wakes_next b _ s e) = go _ (wake_next-Wakes k b v s) e
  where
    go : (o : Option Kernel) → Wakes k o → o ≡ some k' → Fresh k'
    go _ (idles r) q = ground arith
    go _ (wakes next ts r) q = Keeps-some Fresh _ k' q (sound _ f)
Step-Fresh k _ v f (interrupts n s) = v-Fresh (plain n) k f
Step-Fresh k _ v f (interrupts_idle n b s r) = v-Fresh (plain n) k f

Reachable-Fresh : (values : ℕ → ℕ) (k : Kernel) → Reachable values k → Fresh k
unfolding initial_kernel
Reachable-Fresh values _ begins = λ c w l. refl
Reachable-Fresh values k (then_step j _ r e) =
    Step-Fresh j k (Reachable-Valid values j r) (Reachable-Fresh values j r) e

-- The ASSERT of `Append` holds where the routines append: the running thread to the ready list in
-- `Yield` and to the queue of a semaphore in `P`, the first thread of a queue to the ready list in
-- `V`, a new thread to it in `Fork`, and a new semaphore to the queue of a condition in `Wait`.
pub record Appends (k : Kernel) : Type 0 where
  pub yielding : k.sleeping ≡ none → count k.current_thread k.ready_list ≡ 0
  pub sleeping_in :
      (s : SemaphoreId) → k.sleeping ≡ none → count k.current_thread (k.semaphores s).queue ≡ 0
  pub waking :
      (s : SemaphoreId) (t : ℕ) (ts : List ℕ)
      → (k.semaphores s).queue ≡ t ∷ ts
      → count t k.ready_list ≡ 0
  pub forking : count k.next_thread k.ready_list ≡ 0
  pub waiting : (c : ℕ) → count k.next_waiter (k.wait_queue c) ≡ 0

-- In every kernel that the steps reach: the current thread, if it does not sleep, is in the ready
-- list and in the queues of the semaphores nowhere; the first thread of a semaphore's queue is not
-- in the ready list; the thread that `Fork` makes next is not in it; and the semaphore that `Wait`
-- makes next is in no condition's queue.
pub Reachable-Appends : (values : ℕ → ℕ) (k : Kernel) → Reachable values k → Appends k
Reachable-Appends values k r =
    let v = Reachable-Valid values k r in
    let f = Reachable-Fresh values k r in
    record {
      yielding =
          λ s. let a = v.current_running s in let c = v.ready_once k.current_thread in ground arith;
      sleeping_in = λ i s.
          let a = v.current_running s in let c = v.queued_once k.current_thread i in ground arith;
      waking = λ i t ts e. let a = v.queued_once t i in let c = v.ready_once t in ground arith;
      forking =
          let a = v.unborn k.next_thread (omega arith) in
          let c = v.ready_once k.next_thread in ground arith;
      waiting = λ c. f c k.next_waiter (omega arith);
    }
