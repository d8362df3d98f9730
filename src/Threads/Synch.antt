-- ===== src/Threads/Synch.antt =====
-- NachOS-4.0/code/threads/synch.cc: semaphores, locks and condition variables, and the steps that the
-- threads take through them.
--
-- A step that is in the loop of `P` leaves the stage as it is where the thread goes to sleep: the
-- thread tests the value again when it runs again.
use hcmus_csc10007_operating.Common.{
  ℕ, suc, ◌-◌, ◌≡◌, Bool, true, false, Option, none, some, [], ◌∷◌, ◌++◌, ◌==◌, if◌then◌else◌,
  assign_at, ◌>>=◌,
}
use hcmus_csc10007_operating.Threads.{
  running, just_created, SemaphoreId, plain, of_lock, of_waiter, Semaphore, Call, sem_p, sem_v,
  acquire, release, wait, signal, broadcast, fork, yield, finish_thread, Stage, in_user_code,
  calling, recording_holder, unlocking, finished, Kernel, set_semaphore, set_now, ready_to_run,
  thread_fork, thread_sleep, wake_next, thread_yield, thread_finish, new_thread,
}

abbrev pub new_semaphore : ℕ → Semaphore
new_semaphore initial_value = record { value = initial_value; queue = [] }

-- Semaphore::P up to its return (true) or its sleep (false)
unfoldable pub semaphore_p : SemaphoreId → Kernel → Bool × Kernel
semaphore_p s k =
    let x = k.semaphores s in
    if x.value == 0
    then (
      false,
      thread_sleep false
          (set_semaphore k s (record x { queue = x.queue ++ (k.current_thread ∷ []) })),
    )
    else (true, set_semaphore k s (record x { value = x.value - 1 }))

-- Semaphore::V
unfoldable pub semaphore_v : SemaphoreId → Kernel → Kernel
semaphore_v s k =
    let x = k.semaphores s in
    elim x.queue [
      | [] ↦ set_semaphore k s (record x { value = suc x.value })
      | t ∷ ts ↦ set_semaphore (ready_to_run t k) s (record { value = suc x.value; queue = ts })
    ]

-- The current thread goes on after the stage it is in.
unfoldable pub advance : Kernel → Kernel
advance k = elim (k.later k.current_thread) [
  | [] ↦ set_now k in_user_code
  | c ∷ cs ↦ record (set_now k (calling c)) { later = assign_at k.later k.current_thread cs }
]

-- Lock::IsHeldByCurrentThread
unfoldable pub is_held_by_current_thread : ℕ → Kernel → Bool
is_held_by_current_thread l k = elim (k.lock_holder l) [
  | none ↦ false
  | some t ↦ t == k.current_thread
]

-- `P`, then `after` where it returns.
unfoldable pub p_then : SemaphoreId → (Kernel → Kernel) → Kernel → Kernel
p_then s after k = let (returned, k') = semaphore_p s k in if returned then after k' else k'

-- Lock::Release up to its `V`
unfoldable pub lock_release : ℕ → Kernel → Option Kernel
lock_release l k =
    if is_held_by_current_thread l k
    then some (record (set_now k (unlocking l)) { lock_holder = assign_at k.lock_holder l none })
    else none

-- Condition::Wait up to its `Release`
unfoldable pub condition_wait : ℕ → ℕ → Kernel → Option Kernel
condition_wait c l k =
    let w = k.next_waiter in
    if is_held_by_current_thread l k
    then some
        (record (set_semaphore (set_now k (calling (release l))) (of_waiter w) (new_semaphore 0)) {
          wait_queue = assign_at k.wait_queue c (k.wait_queue c ++ (w ∷ []));
          later =
              assign_at k.later k.current_thread
                (sem_p (of_waiter w) ∷ acquire l ∷ k.later k.current_thread);
          next_waiter = suc w;
        })
    else none

-- Condition::Signal
unfoldable pub condition_signal : ℕ → ℕ → Kernel → Option Kernel
condition_signal c l k =
    if is_held_by_current_thread l k
    then some (elim (k.wait_queue c) [
      | [] ↦ k
      | w ∷ ws ↦ semaphore_v (of_waiter w) (record k { wait_queue = assign_at k.wait_queue c ws })
    ])
    else none

-- A pass of the loop of Condition::Broadcast
unfoldable pub condition_broadcast : ℕ → ℕ → Kernel → Kernel
condition_broadcast c l k = elim (k.wait_queue c) [
  | [] ↦ advance k
  | _ ↦ record (set_now k (calling (signal c l))) {
    later = assign_at k.later k.current_thread (broadcast c l ∷ k.later k.current_thread);
  }
]

-- A step inside a routine that has been called.
unfoldable pub perform_call : Call → Kernel → Option Kernel
perform_call (sem_p s) k = some (p_then s advance k)
perform_call (sem_v s) k = some (advance (semaphore_v s k))
perform_call (acquire l) k =
    some (p_then (of_lock l) (λ (j : Kernel). set_now j (recording_holder l)) k)
perform_call (release l) k = lock_release l k
perform_call (wait c l) k = condition_wait c l k
perform_call (signal c l) k = do k1 ← condition_signal c l k; some (advance k1)
perform_call (broadcast c l) k = some (condition_broadcast c l k)
perform_call fork k = some (advance (thread_fork k.next_thread (new_thread k)))
perform_call yield k = thread_yield (advance k)
perform_call finish_thread k = some (thread_finish (set_now k finished))

unfoldable pub perform_stage : Stage → Kernel → Option Kernel
perform_stage in_user_code k = none
perform_stage (calling c) k = perform_call c k
perform_stage (recording_holder l) k =
    some (advance (record k { lock_holder = assign_at k.lock_holder l (some k.current_thread) }))
perform_stage (unlocking l) k = some (advance (semaphore_v (of_lock l) k))
perform_stage finished k = none

unfoldable pub perform : Kernel → Option Kernel
perform k = perform_stage (k.now k.current_thread) k

-- What user code may call: the semaphores inside locks and conditions are private.
pub data Allowed : Call → Type 0 where
  may_p : (n : ℕ) → Allowed (sem_p (plain n))
  may_v : (n : ℕ) → Allowed (sem_v (plain n))
  may_acquire : (l : ℕ) → Allowed (acquire l)
  may_release : (l : ℕ) → Allowed (release l)
  may_wait : (c l : ℕ) → Allowed (wait c l)
  may_signal : (c l : ℕ) → Allowed (signal c l)
  may_broadcast : (c l : ℕ) → Allowed (broadcast c l)
  may_fork : Allowed fork
  may_yield : Allowed yield
  may_finish : Allowed finish_thread

-- The steps: the current thread calls a routine, goes on in one, or loses the processor to the
-- timer; or it sleeps and the next thread is taken; or a device's handler, whose work in this
-- kernel is a `V`, interrupts user code or the idle loop.
pub data Step (k : Kernel) : Kernel → Type 0 where
  calls :
      (c : Call)
      → k.sleeping ≡ none
      → k.now k.current_thread ≡ in_user_code
      → Allowed c
      → Step k (set_now k (calling c))
  performs : (k' : Kernel) → k.sleeping ≡ none → perform k ≡ some k' → Step k k'
  preempts : (k' : Kernel) → k.sleeping ≡ none → thread_yield k ≡ some k' → Step k k'
  wakes_next :
      (finishing : Bool) (k' : Kernel)
      → k.sleeping ≡ some finishing
      → wake_next finishing k ≡ some k'
      → Step k k'
  interrupts : (n : ℕ) → k.sleeping ≡ none → Step k (semaphore_v (plain n) k)
  interrupts_idle :
      (n : ℕ) (finishing : Bool)
      → k.sleeping ≡ some finishing
      → k.ready_list ≡ []
      → Step k (semaphore_v (plain n) k)

-- One thread, in user code; every lock open, the other semaphores with the values they are made
-- with.
unfoldable pub initial_kernel : (ℕ → ℕ) → Kernel
initial_kernel values = record {
  current_thread = 0;
  next_thread = 1;
  sleeping = none;
  ready_list = [];
  to_be_destroyed = none;
  status = λ t. if t == 0 then running else just_created;
  now = λ t. in_user_code;
  later = λ t. [];
  semaphores = λ s. elim s [
    | plain n ↦ new_semaphore (values n)
    | of_lock _ ↦ new_semaphore 1
    | of_waiter _ ↦ new_semaphore 0
  ];
  lock_holder = λ l. none;
  wait_queue = λ c. [];
  next_waiter = 0;
}

pub data Reachable (values : ℕ → ℕ) : Kernel → Type 0 where
  begins : Reachable values (initial_kernel values)
  then_step : (k k' : Kernel) → Reachable values k → Step k k' → Reachable values k'
