-- ===== src/Threads/Queues.antt =====
-- NachOS-4.0/code/threads/scheduler.cc, thread.cc and synch.cc: what holds of the ready list and of the queues
-- of the semaphores, and the form of the kernel after a switch of threads.
use hcmus_csc10007_operating.Common.{
  ℕ, suc, ◌+◌, ◌≤◌, ◌<◌, ◌≡◌, ◌≢◌, ◌⊎◌, refl, Bool, true, false, Option, none, some, List, [], ◌∷◌,
  ◌++◌, ◌==◌, if◌then◌else◌, assign_at, arith,
}
use hcmus_csc10007_operating.Threads.{
  ThreadStatus, just_created, running, ready, blocked, SemaphoreId, of_lock, Semaphore, sem_p,
  acquire, Stage, in_user_code, calling, finished, Kernel, same_id, ready_to_run, find_next_to_run,
  check_to_be_destroyed, mark_finishing, run, wake_next, thread_yield,
}

-- How often a thread stands in a list.
abbrev pub count : ℕ → List ℕ → ℕ
count t [] = 0
count t (x ∷ xs) = let rest = count t xs in if t == x then suc rest else rest

abbrev pub is_ready : ThreadStatus → ℕ
is_ready ready = 1
is_ready _ = 0

-- The thread is in the loop of `P` of this semaphore, or about to enter it.
abbrev pub waits : Stage → SemaphoreId → ℕ
waits (calling (sem_p s)) i = if same_id i s then 1 else 0
waits (calling (acquire l)) i = if same_id i (of_lock l) then 1 else 0
waits _ i = 0

abbrev pub blocked_on : ThreadStatus → Stage → SemaphoreId → ℕ
blocked_on blocked x s = waits x s
blocked_on _ x s = 0

-- How many threads of a list are in `P` of a semaphore.
abbrev pub in_p : (ℕ → Stage) → SemaphoreId → List ℕ → ℕ
in_p now s [] = 0
in_p now s (t ∷ ts) = waits (now t) s + in_p now s ts

abbrev pub awake : Option Bool → ℕ → ℕ
awake none n = n
awake (some _) n = 0

-- The threads that are to test the value of a semaphore without a further `V`.
abbrev pub woken : ℕ → Option Bool → List ℕ → (ℕ → Stage) → SemaphoreId → ℕ
woken current sleeping ready_list now s =
    in_p now s ready_list + awake sleeping (waits (now current) s)

-- The fields of a kernel that the invariant is about.
pub record IsValid (current : ℕ) (next_thread : ℕ) (sleeping : Option Bool) (ready_list : List ℕ)
    (to_be_destroyed : Option ℕ) (status : ℕ → ThreadStatus) (now : ℕ → Stage)
    (semaphores : SemaphoreId → Semaphore) : Type 0 where
  pub ready_once : (t : ℕ) → count t ready_list ≡ is_ready (status t)
  pub queued_once :
      (t : ℕ) (s : SemaphoreId) → count t (semaphores s).queue ≤ blocked_on (status t) (now t) s
  pub current_running : sleeping ≡ none → status current ≡ running
  pub current_stopped : (f : Bool) → sleeping ≡ some f → status current ≢ running
  pub only_current : (t : ℕ) → status t ≡ running → t ≡ current
  pub finishing : sleeping ≡ some true → (now current ≡ finished) × (status current ≡ blocked)
  pub none_destroyed : to_be_destroyed ≡ none
  pub unborn : (t : ℕ) → next_thread ≤ t → status t ≡ just_created
  pub unborn_now : (t : ℕ) → next_thread ≤ t → now t ≡ in_user_code
  pub covered :
      (s : SemaphoreId)
      → ((semaphores s).queue ≡ [])
        ⊎ ((semaphores s).value ≤ woken current sleeping ready_list now s)

abbrev pub Valid : Kernel → Type 0
Valid k =
    IsValid k.current_thread k.next_thread k.sleeping k.ready_list k.to_be_destroyed k.status k.now
      k.semaphores

pub count-append :
    (t a : ℕ) (xs : List ℕ) → count t (xs ++ (a ∷ [])) ≡ count t xs + (if t == a then 1 else 0)
count-append t a [] = ground arith
count-append t a (x ∷ xs) = ground (arith, count-append t a xs)

pub in_p-append :
    (now : ℕ → Stage) (s : SemaphoreId) (a : ℕ) (xs : List ℕ)
    → in_p now s (xs ++ (a ∷ [])) ≡ in_p now s xs + waits (now a) s
in_p-append now s a [] = omega arith
in_p-append now s a (x ∷ xs) = omega (arith, in_p-append now s a xs)

-- A thread that is not in the list may change its stage.
pub in_p-assign_at :
    (now : ℕ → Stage) (s : SemaphoreId) (c : ℕ) (x : Stage) (xs : List ℕ)
    → count c xs ≡ 0
    → in_p (assign_at now c x) s xs ≡ in_p now s xs
in_p-assign_at now s c x [] h = refl
in_p-assign_at now s c x (t ∷ ts) h =
    let e : (t == c) ≡ false = ground arith in
    let r = in_p-assign_at now s c x ts (ground arith) in rw e (omega (arith, r))

-- A thread is in `P` of one semaphore at most.
pub waits_one :
    (x : Stage) (i s : SemaphoreId) → 0 < waits x s → same_id i s ≡ false → waits x i ≡ 0
waits_one x i s h e = ground arith

-- The kernel after a switch to the first thread of the ready list.
abbrev pub switched : Kernel → ℕ → List ℕ → (ℕ → ThreadStatus) → Kernel
switched k next ts status = record k {
  current_thread = next;
  sleeping = none;
  ready_list = ts;
  to_be_destroyed = none;
  status = assign_at status next running;
}

pub data Yields (k : Kernel) : Option Kernel → Type 0 where
  alone : k.ready_list ≡ [] → Yields k (some k)
  yields :
      (next : ℕ) (ts : List ℕ)
      → k.ready_list ≡ next ∷ ts
      → Yields k (
          some (
            switched k next
              (ts ++ (k.current_thread ∷ []))
              (assign_at k.status k.current_thread ready)))

pub thread_yield-Yields : (k : Kernel) → k.to_be_destroyed ≡ none → Yields k (thread_yield k)
unfolding thread_yield find_next_to_run ready_to_run run mark_finishing check_to_be_destroyed
thread_yield-Yields k d = go k.ready_list refl
  where
    go : (xs : List ℕ) → k.ready_list ≡ xs → Yields k (thread_yield k)
    go [] e = let q : thread_yield k ≡ some k = ground arith in rw q (alone e)
    go (next ∷ ts) e =
        let q : thread_yield k
            ≡ some (
                switched k next (ts ++ (k.current_thread ∷ []))
                  (assign_at k.status k.current_thread ready)) =
          ground arith in
        rw q (yields next ts e)

pub data Wakes (k : Kernel) : Option Kernel → Type 0 where
  idles : k.ready_list ≡ [] → Wakes k none
  wakes :
      (next : ℕ) (ts : List ℕ)
      → k.ready_list ≡ next ∷ ts
      → Wakes k (some (switched k next ts k.status))

pub wake_next-Wakes :
    (k : Kernel) (finishing : Bool)
    → Valid k
    → k.sleeping ≡ some finishing
    → Wakes k (wake_next finishing k)
unfolding wake_next find_next_to_run run mark_finishing check_to_be_destroyed
wake_next-Wakes k f v s = go k.ready_list refl f s
  where
    go :
        (xs : List ℕ)
        → k.ready_list ≡ xs
        → (f : Bool) → k.sleeping ≡ some f
        → Wakes k (wake_next f k)
    go [] e f s = let q : wake_next f k ≡ none = ground arith in rw q (idles e)
    go (next ∷ ts) e false s =
        let d = v.none_destroyed in
        let q : wake_next false k ≡ some (switched k next ts k.status) = ground arith in
        rw q (wakes next ts e)
    go (next ∷ ts) e true s =
        let c = v.ready_once k.current_thread in
        let (g, b) = v.finishing s in
        let n : (k.current_thread == next) ≡ false = ground arith in
        let d = v.none_destroyed in
        let q : wake_next true k ≡ some (switched k next ts k.status) = ground arith in
        rw q (wakes next ts e)
