-- ===== src/Threads/Calls.antt =====
-- NachOS-4.0/code/threads/synch.cc and thread.cc: the operations keep the lists of threads as they are to be.
use hcmus_csc10007_operating.Common.{
  ℕ, ◌+◌, ◌-◌, ◌≤◌, ◌≡◌, ◌≢◌, ◌⊎◌, refl, Bool, true, false, none, some, List, [], ◌∷◌, ◌++◌,
  if◌then◌else◌, assign_at, arith, Bool-cases, inl, inr,
}
use hcmus_csc10007_operating.Threads.{
  ready, SemaphoreId, Semaphore, Stage, Kernel, same_id, set_now, set_semaphore, thread_sleep,
}
use hcmus_csc10007_operating.Threads.Queues.{
  count, waits, in_p, IsValid, Valid, count-append, in_p-append, in_p-assign_at, switched,
}

pub same_id_lem : (i s : SemaphoreId) → same_id i s ≡ true → i ≡ s
same_id_lem i s e = ground arith

-- The processor goes from the current thread to the first ready one.
module _ (k : Kernel) (v : Valid k) (next : ℕ) (ts : List ℕ) (e : k.ready_list ≡ next ∷ ts) where
  next_ready : k.status next ≡ ready
  next_ready = let c = v.ready_once next in ground arith

  pub yields-Valid :
      k.sleeping ≡ none
      → Valid (
          switched k next
            (ts ++ (k.current_thread ∷ []))
            (assign_at k.status k.current_thread ready))
  yields-Valid s =
      let r = v.current_running s in
      let n = next_ready in
      record {
        ready_once = λ t.
            let c = v.ready_once t in let a = count-append t k.current_thread ts in ground arith;
        queued_once = λ t i. let q = v.queued_once t i in ground arith;
        current_running = λ _. ground arith;
        current_stopped = λ f z. ground arith;
        only_current = λ t z. let o = v.only_current t in ground arith;
        finishing = λ z. ground arith;
        none_destroyed = refl;
        unborn = λ t l. let u = v.unborn t l in ground arith;
        unborn_now = v.unborn_now;
        covered = λ i.
            let c = v.covered i in let a = in_p-append k.now i k.current_thread ts in ground arith;
      }

  pub wakes-Valid : (f : Bool) → k.sleeping ≡ some f → Valid (switched k next ts k.status)
  wakes-Valid f s =
      let b = v.current_stopped f s in
      let n = next_ready in
      record {
        ready_once = λ t. let c = v.ready_once t in ground arith;
        queued_once = λ t i. let q = v.queued_once t i in ground arith;
        current_running = λ _. ground arith;
        current_stopped = λ g z. ground arith;
        only_current = λ t z. let o = v.only_current t in ground arith;
        finishing = λ z. ground arith;
        none_destroyed = refl;
        unborn = λ t l. let u = v.unborn t l in ground arith;
        unborn_now = v.unborn_now;
        covered = λ i. let c = v.covered i in ground arith;
      }

-- The current thread, which runs, changes its stage. What it changes in the semaphores is to leave
-- their queues, and no more units than there are threads to take them.
pub stage-IsValid :
    (k : Kernel)
    → Valid k
    → k.sleeping ≡ none
    → (x : Stage) (semaphores : SemaphoreId → Semaphore)
    → ((i : SemaphoreId)
        → ((semaphores i).queue ≡ [])
          ⊎ (((semaphores i).queue ≡ (k.semaphores i).queue)
              × ((semaphores i).value ≤ in_p k.now i k.ready_list + waits x i)))
    → IsValid k.current_thread k.next_thread k.sleeping k.ready_list k.to_be_destroyed k.status
        (assign_at k.now k.current_thread x)
        semaphores
stage-IsValid k v s x semaphores h =
    let r = v.current_running s in
    let z : count k.current_thread k.ready_list ≡ 0 =
      let c = v.ready_once k.current_thread in ground arith in
    record {
      ready_once = v.ready_once;
      queued_once = λ t i. let q = v.queued_once t i in let c = h i in ground arith;
      current_running = v.current_running;
      current_stopped = v.current_stopped;
      only_current = v.only_current;
      finishing = λ e. ground arith;
      none_destroyed = v.none_destroyed;
      unborn = v.unborn;
      unborn_now = λ t l. let u = v.unborn t l in let w = v.unborn_now t l in ground arith;
      covered = λ i.
          let c = h i in
          let p = in_p-assign_at k.now i k.current_thread x k.ready_list z in ground arith;
    }

-- A change of stage of a thread that is not in `P`.
pub set_now-Valid :
    (k : Kernel)
    → Valid k
    → k.sleeping ≡ none
    → ((i : SemaphoreId) → waits (k.now k.current_thread) i ≡ 0)
    → (x : Stage) → Valid (set_now k x)
set_now-Valid k v s n x =
    stage-IsValid k v s x k.semaphores (λ i. let c = v.covered i in let w = n i in ground arith)

-- The current thread is in `P` of the semaphore `s`.
module _ (k : Kernel) (v : Valid k) (awake_now : k.sleeping ≡ none) (s : SemaphoreId)
    (at_p : (i : SemaphoreId)
      → waits (k.now k.current_thread) i ≡ (if same_id i s then 1 else 0)) where
  pub taken-Valid :
      (x : Stage)
      → (k.semaphores s).value ≢ 0
      → Valid (
          set_now
            (set_semaphore k s (record (k.semaphores s) { value = (k.semaphores s).value - 1 }))
            x)
  taken-Valid x n = stage-IsValid k v awake_now x _ (λ i.
      let c = v.covered i in
      let w = at_p i in
      elim (Bool-cases (same_id i s)) [
        | inl e ↦ let q = same_id_lem i s e in ground arith
        | inr e ↦ ground arith
      ])

  pub asleep-Valid :
      (k.semaphores s).value ≡ 0
      → Valid (
          thread_sleep false (
            set_semaphore k s (record (k.semaphores s) {
              queue = (k.semaphores s).queue ++ (k.current_thread ∷ []);
            })))
  unfolding thread_sleep
  asleep-Valid z =
      let r = v.current_running awake_now in
      record {
        ready_once = λ t. let c = v.ready_once t in ground arith;
        queued_once = λ t i.
            let q = v.queued_once t i in
            let w = at_p i in
            let a = count-append t k.current_thread (k.semaphores s).queue in
            elim (Bool-cases (same_id i s)) [
              | inl e ↦ let p = same_id_lem i s e in ground arith
              | inr e ↦ ground arith
            ];
        current_running = λ e. ground arith;
        current_stopped = λ f e. ground arith;
        only_current = λ t e. let o = v.only_current t in ground arith;
        finishing = λ e. ground arith;
        none_destroyed = v.none_destroyed;
        unborn = λ t l. let u = v.unborn t l in ground arith;
        unborn_now = v.unborn_now;
        covered = λ i.
            let c = v.covered i in
            let w = at_p i in
            elim (Bool-cases (same_id i s)) [
              | inl e ↦ let p = same_id_lem i s e in inr (ground arith)
              | inr e ↦ ground arith
            ];
      }
