-- ===== src/Threads/Routines.antt =====
-- NachOS-4.0/code/threads/synch.cc and thread.cc: the routines keep the lists of threads as they are to be.
use hcmus_csc10007_operating.Common.{
  ◌-◌, ◌≡◌, ◌≢◌, refl, sym, false, Option, none, some, List, [], ◌∷◌, ◌++◌, ◌==◌, if◌then◌else◌,
  assign_at, arith, Bool-cases, inl, inr,
}
use hcmus_csc10007_operating.Threads.{
  SemaphoreId, Call, Stage, in_user_code, calling, finished, Kernel, same_id, set_now,
  set_semaphore, ready_to_run, thread_sleep, new_thread, thread_fork, thread_finish,
}
use hcmus_csc10007_operating.Threads.Synch.{
  semaphore_p, semaphore_v, new_semaphore, advance, p_then,
}
use hcmus_csc10007_operating.Threads.Queues.{
  count, waits, Valid, count-append, in_p-append, in_p-assign_at,
}
use hcmus_csc10007_operating.Threads.Calls.{stage-IsValid, set_now-Valid, taken-Valid, asleep-Valid}
use hcmus_csc10007_operating.Threads.Waking.{Gives, kept, woke, semaphore_v-Gives, Gives-Valid}

-- The stage after a routine: user code, or a further call.
pub data Advances (k : Kernel) : Kernel → Type 0 where
  to_user : Advances k (set_now k in_user_code)
  to_call :
      (c : Call) (cs : List Call)
      → k.later k.current_thread ≡ c ∷ cs
      → Advances k
          (record (set_now k (calling c)) { later = assign_at k.later k.current_thread cs })

pub advance-Advances : (k : Kernel) → Advances k (advance k)
unfolding advance
advance-Advances k = go (k.later k.current_thread) refl
  where
    go : (cs : List Call) → k.later k.current_thread ≡ cs → Advances k (advance k)
    go [] e = let q : advance k ≡ set_now k in_user_code = ground arith in rw q to_user
    go (c ∷ cs) e =
        let q : advance k
            ≡ record (set_now k (calling c)) { later = assign_at k.later k.current_thread cs } =
          ground arith in
        rw q (to_call c cs e)

pub advance-Valid :
    (k : Kernel)
    → Valid k
    → k.sleeping ≡ none
    → ((i : SemaphoreId) → waits (k.now k.current_thread) i ≡ 0)
    → Valid (advance k)
advance-Valid k v s n = go (advance k) (advance-Advances k)
  where
    go : (j : Kernel) → Advances k j → Valid j
    go _ to_user = set_now-Valid k v s n in_user_code
    go _ (to_call c cs e) = set_now-Valid k v s n (calling c)

-- The end of `P`: the thread sleeps, or goes on with one unit taken.
pub data Passes (s : SemaphoreId) (after : Kernel → Kernel) (k : Kernel) : Kernel → Type 0 where
  sleeps :
      (k.semaphores s).value ≡ 0
      → Passes s after k (
          thread_sleep false (
            set_semaphore k s (record (k.semaphores s) {
              queue = (k.semaphores s).queue ++ (k.current_thread ∷ []);
            })))
  takes :
      (k.semaphores s).value ≢ 0
      → Passes s after k (
          after
            (set_semaphore k s (record (k.semaphores s) { value = (k.semaphores s).value - 1 })))

pub p_then-Passes :
    (s : SemaphoreId) (after : Kernel → Kernel) (k : Kernel) → Passes s after k (p_then s after k)
unfolding p_then semaphore_p
p_then-Passes s after k = elim (Bool-cases ((k.semaphores s).value == 0)) [
  | inl e ↦ let z : (k.semaphores s).value ≡ 0 = ground arith in rw e (sleeps z)
  | inr e ↦ let z : (k.semaphores s).value ≢ 0 = λ q. ground arith in rw e (takes z)
]

-- The operations, in a kernel whose current thread runs.
module _ (k : Kernel) (v : Valid k) (s : k.sleeping ≡ none) where
  pub acquire-Valid :
      (i : SemaphoreId) (x : Stage)
      → ((j : SemaphoreId) → waits (k.now k.current_thread) j ≡ (if same_id j i then 1 else 0))
      → Valid (p_then i (λ (j : Kernel). set_now j x) k)
  acquire-Valid i x w = go _ (p_then-Passes i _ k)
    where
      go : (j : Kernel) → Passes i (λ (j : Kernel). set_now j x) k j → Valid j
      go _ (sleeps z) = asleep-Valid k v s i w z
      go _ (takes z) = taken-Valid k v s i w x z

  pub p-Valid :
      (i : SemaphoreId)
      → ((j : SemaphoreId) → waits (k.now k.current_thread) j ≡ (if same_id j i then 1 else 0))
      → Valid (p_then i advance k)
  p-Valid i w = go _ (p_then-Passes i _ k)
    where
      taken : Kernel
      taken = set_semaphore k i (record (k.semaphores i) { value = (k.semaphores i).value - 1 })

      next : (j : Kernel) → (k.semaphores i).value ≢ 0 → Advances taken j → Valid j
      next _ z to_user = taken-Valid k v s i w in_user_code z
      next _ z (to_call c cs e) = taken-Valid k v s i w (calling c) z

      go : (j : Kernel) → Passes i advance k j → Valid j
      go _ (sleeps z) = asleep-Valid k v s i w z
      go _ (takes z) = next _ z (advance-Advances _)

  pub v-Valid :
      (i : SemaphoreId)
      → ((j : SemaphoreId) → waits (k.now k.current_thread) j ≡ 0)
      → Valid (advance (semaphore_v i k))
  v-Valid i w = go _ (semaphore_v-Gives i k)
    where
      go : (j : Kernel) → Gives i k j → Valid (advance j)
      go _ (kept e) = advance-Valid _ (Gives-Valid i k _ v (kept e)) s w
      go _ (woke t ts e) = advance-Valid _ (Gives-Valid i k _ v (woke t ts e)) s w

  pub finish_thread-Valid :
      ((j : SemaphoreId) → waits (k.now k.current_thread) j ≡ 0)
      → Valid (thread_finish (set_now k finished))
  unfolding thread_finish thread_sleep
  finish_thread-Valid w =
      let f = set_now-Valid k v s w finished in
      let r = v.current_running s in
      record {
        ready_once = λ t. let c = v.ready_once t in ground arith;
        queued_once = λ t i. let q = f.queued_once t i in ground arith;
        current_running = λ e. ground arith;
        current_stopped = λ g e. ground arith;
        only_current = λ t e. let o = v.only_current t in ground arith;
        finishing = λ e. (ground arith, ground arith);
        none_destroyed = v.none_destroyed;
        unborn = λ t l. let u = v.unborn t l in ground arith;
        unborn_now = f.unborn_now;
        covered = λ i. let c = f.covered i in ground arith;
      }

  pub fork-Valid : Valid (thread_fork k.next_thread (new_thread k))
  unfolding thread_fork new_thread ready_to_run
  fork-Valid =
      let r = v.current_running s in
      let u = v.unborn k.next_thread (omega arith) in
      let z : count k.next_thread k.ready_list ≡ 0 =
        let c = v.ready_once k.next_thread in ground arith in
      record {
        ready_once = λ t.
            let c = v.ready_once t in
            let a = count-append t k.next_thread k.ready_list in ground arith;
        queued_once = λ t i. let q = v.queued_once t i in ground arith;
        current_running = λ e. ground arith;
        current_stopped = λ f e. ground arith;
        only_current = λ t e. let o = v.only_current t in ground arith;
        finishing = λ e. ground arith;
        none_destroyed = v.none_destroyed;
        unborn = λ t l. let n = v.unborn t (omega arith) in ground arith;
        unborn_now = λ t l. let n = v.unborn_now t (omega arith) in ground arith;
        covered = λ i.
            let c = v.covered i in
            let p = in_p-assign_at k.now i k.next_thread in_user_code k.ready_list z in
            let a =
              in_p-append (assign_at k.now k.next_thread in_user_code) i k.next_thread
                k.ready_list in
            ground arith;
      }

  pub now-fork :
      ((j : SemaphoreId) → waits (k.now k.current_thread) j ≡ 0)
      → (j : SemaphoreId)
      → waits ((thread_fork k.next_thread (new_thread k)).now k.current_thread) j ≡ 0
  unfolding thread_fork new_thread ready_to_run
  now-fork w j = let q = w j in ground arith

  pub wait-Valid :
      ((j : SemaphoreId) → waits (k.now k.current_thread) j ≡ 0)
      → (i : SemaphoreId) (x : Stage) → Valid (set_now (set_semaphore k i (new_semaphore 0)) x)
  wait-Valid w i x = stage-IsValid k v s x _ (λ j.
      let c = v.covered j in
      let q = w j in
      elim (Bool-cases (same_id j i)) [ inl e ↦ ground arith | inr e ↦ ground arith ])

-- A step may fail; its result is as it is to be.
pub data Keeps (P : Kernel → Type 0) : Option Kernel → Type 0 where
  refused : Keeps P none
  sound : (k : Kernel) → P k → Keeps P (some k)

pub Keeps-some :
    (P : Kernel → Type 0) (o : Option Kernel) (k : Kernel) → o ≡ some k → Keeps P o → P k
Keeps-some P _ k e refused = ground arith
Keeps-some P _ k e (sound j v) = let q : j ≡ k = ground arith in rw (sym q) v
