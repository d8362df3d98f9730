-- ===== src/Threads.antt =====
-- NachOS-4.0/code/threads/thread.cc and scheduler.cc: the threads, the ready list and the choice of the next
-- thread to run.
--
-- A thread is its number. `now` and `later` say where it is in the synchronization routines, in
-- place of its saved stack and program counter: SWITCH is the change of `current_thread`. A failed
-- ASSERT is `none`. The simulated time advances only where interrupts are enabled again and after
-- a user instruction, so what stands between two such points is one step. The lists of threads are
-- mathematical ones: the ASSERT of `Append` that the item is not yet in the list stands apart, in
-- Threads.Appending. The value of a semaphore is a number from 0 on that does not wrap around.
pub mod Synch
pub mod Queues
pub mod Calls
pub mod Waking
pub mod Routines
pub mod Steps
pub mod Exclusion
pub mod Renewal
pub mod Mutual
pub mod Holding
pub mod Locking
pub mod Safety
pub mod Rounds
pub mod Broadcast
pub mod Appending
use hcmus_csc10007_operating.Common.{
  ℕ, Bool, true, false, Option, none, some, List, [], ◌∷◌, ◌++◌, ◌==◌, if◌then◌else◌, assign_at,
  ◌>>=◌, suc,
}

pub data ThreadStatus : Type 0 where
  just_created running ready blocked : ThreadStatus

-- The semaphores: those of the kernel and its programs, the one inside each lock, and the one that
-- each `Condition::Wait` creates.
pub data SemaphoreId : Type 0 where
  plain : ℕ → SemaphoreId
  of_lock : ℕ → SemaphoreId
  of_waiter : ℕ → SemaphoreId

pub record Semaphore : Type 0 where
  pub value : ℕ
  pub queue : List ℕ

-- A call of a routine. The arguments of `wait`, `signal` and `broadcast` are the condition and its
-- lock; `fork` creates the thread that it forks.
pub data Call : Type 0 where
  sem_p : SemaphoreId → Call
  sem_v : SemaphoreId → Call
  acquire : ℕ → Call
  release : ℕ → Call
  wait : ℕ → ℕ → Call
  signal : ℕ → ℕ → Call
  broadcast : ℕ → ℕ → Call
  fork : Call
  yield : Call
  finish_thread : Call

-- `recording_holder` is `Acquire` after its `P`, `unlocking` is `Release` before its `V`.
pub data Stage : Type 0 where
  in_user_code : Stage
  calling : Call → Stage
  recording_holder : ℕ → Stage
  unlocking : ℕ → Stage
  finished : Stage

-- `sleeping` is the argument of `Thread::Sleep` while the current thread is in the loop there.
pub record Kernel : Type 0 where
  pub current_thread : ℕ
  pub next_thread : ℕ
  pub sleeping : Option Bool
  pub ready_list : List ℕ
  pub to_be_destroyed : Option ℕ
  pub status : ℕ → ThreadStatus
  pub now : ℕ → Stage
  pub later : ℕ → List Call
  pub semaphores : SemaphoreId → Semaphore
  pub lock_holder : ℕ → Option ℕ
  pub wait_queue : ℕ → List ℕ
  pub next_waiter : ℕ

abbrev pub same_id : SemaphoreId → SemaphoreId → Bool
same_id (plain a) (plain b) = a == b
same_id (of_lock a) (of_lock b) = a == b
same_id (of_waiter a) (of_waiter b) = a == b
same_id _ _ = false

abbrev pub set_semaphore : Kernel → SemaphoreId → Semaphore → Kernel
set_semaphore k s x = record k { semaphores = λ i. if same_id i s then x else k.semaphores i }

abbrev pub set_status : Kernel → ℕ → ThreadStatus → Kernel
set_status k t x = record k { status = assign_at k.status t x }

abbrev pub set_now : Kernel → Stage → Kernel
set_now k x = record k { now = assign_at k.now k.current_thread x }

-- Scheduler::ReadyToRun
unfoldable pub ready_to_run : ℕ → Kernel → Kernel
ready_to_run t k = record (set_status k t ready) { ready_list = k.ready_list ++ (t ∷ []) }

-- Scheduler::FindNextToRun
unfoldable pub find_next_to_run : Kernel → Option (ℕ × Kernel)
find_next_to_run k = elim k.ready_list [
  | [] ↦ none
  | t ∷ ts ↦ some (t, record k { ready_list = ts })
]

-- Scheduler::CheckToBeDestroyed, with the ASSERT of ~Thread
unfoldable pub check_to_be_destroyed : Kernel → Option Kernel
check_to_be_destroyed k = elim k.to_be_destroyed [
  | none ↦ some k
  | some t ↦ if t == k.current_thread then none else some (record k { to_be_destroyed = none })
]

-- The ASSERT of `Run` on a thread that finishes.
unfoldable pub mark_finishing : Bool → Kernel → Option Kernel
mark_finishing finishing k =
    if finishing
    then (elim k.to_be_destroyed [
      | none ↦ some (record k { to_be_destroyed = some k.current_thread })
      | some _ ↦ none
    ])
    else some k

-- Scheduler::Run up to the point where the next thread is back from its own SWITCH, or begins.
unfoldable pub run : ℕ → Bool → Kernel → Option Kernel
run next finishing k = do
  k1 ← mark_finishing finishing k
  check_to_be_destroyed
      (record (set_status k1 next running) { current_thread = next; sleeping = none })

-- Thread::Thread: the thread is the next number, and begins in code of its own.
unfoldable pub new_thread : Kernel → Kernel
new_thread k = record (set_status k k.next_thread just_created) {
  now = assign_at k.now k.next_thread in_user_code;
  later = assign_at k.later k.next_thread [];
  next_thread = suc k.next_thread;
}

-- Thread::Fork
unfoldable pub thread_fork : ℕ → Kernel → Kernel
thread_fork t k = ready_to_run t k

-- Thread::Sleep up to its loop
unfoldable pub thread_sleep : Bool → Kernel → Kernel
thread_sleep finishing k = record (set_status k k.current_thread blocked) {
  sleeping = some finishing;
}

-- A pass of the loop of `Thread::Sleep`: `none` is the call of `Idle`.
unfoldable pub wake_next : Bool → Kernel → Option Kernel
wake_next finishing k = do (next, k1) ← find_next_to_run k; run next finishing k1

-- Thread::Yield
unfoldable pub thread_yield : Kernel → Option Kernel
thread_yield k = elim (find_next_to_run k) [
  | none ↦ some k
  | some (next, k1) ↦ run next false (ready_to_run k.current_thread k1)
]

-- Thread::Finish
unfoldable pub thread_finish : Kernel → Kernel
thread_finish k = thread_sleep true k
