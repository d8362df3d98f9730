-- ===== src/Threads/Rounds.antt =====
-- NachOS-4.0/code/threads/scheduler.cc and synch.cc: the order in which threads run and wake.
use hcmus_csc10007_operating.Common.{
  ℕ, zero, suc, ◌+◌, ◌≡◌, true, refl, sym, ap, ◌∙◌, Option, none, some, List, [], ◌∷◌, ◌++◌,
  get_elem?, take, drop, arith, assign_at, ◌>>=◌,
}
use hcmus_csc10007_operating.Threads.{SemaphoreId, ready, Kernel, same_id, thread_yield}
use hcmus_csc10007_operating.Threads.Synch.{semaphore_v}
use hcmus_csc10007_operating.Threads.Queues.{Yields, alone, yields, thread_yield-Yields, switched}
use hcmus_csc10007_operating.Threads.Waking.{Gives, kept, woke, semaphore_v-Gives}

-- The current thread, whichever it is, yields `n` times.
abbrev pub yield_times : ℕ → Kernel → Option Kernel
yield_times zero k = some k
yield_times (suc n) k = do k1 ← thread_yield k; yield_times n k1

get_elem?-append :
    (xs : List ℕ) (a t : ℕ) (n : ℕ)
    → get_elem? xs n ≡ some t
    → get_elem? (xs ++ (a ∷ [])) n ≡ some t
get_elem?-append [] a t n h = ground arith
get_elem?-append (x ∷ xs) a t zero h = h
get_elem?-append (x ∷ xs) a t (suc n) h = get_elem?-append xs a t n h

nonempty :
    (xs : List ℕ) (n t : ℕ) → get_elem? xs n ≡ some t → (x : ℕ) × (ys : List ℕ) × (xs ≡ x ∷ ys)
nonempty [] n t h = ground arith
nonempty (x ∷ ys) n t h = (x, ys, refl)

after_yield : Kernel → ℕ → List ℕ → Kernel
after_yield k next ts =
    switched k next (ts ++ (k.current_thread ∷ [])) (assign_at k.status k.current_thread ready)

yield_next :
    (k : Kernel) (next : ℕ) (ts : List ℕ)
    → k.to_be_destroyed ≡ none
    → k.ready_list ≡ next ∷ ts
    → thread_yield k ≡ some (after_yield k next ts)
unfolding after_yield
yield_next k next ts d e = go _ (thread_yield-Yields k d)
  where
    go : (o : Option Kernel) → Yields k o → o ≡ some (after_yield k next ts)
    go _ (alone z) = ground arith
    go _ (yields n' ts' z) =
        let p : n' ≡ next = ground arith in let q : ts' ≡ ts = ground arith in rw (p, q) refl

-- A thread at place `n` of the ready list runs after `n + 1` calls of `Yield` by the threads that
-- run meanwhile, where no thread is left to be destroyed.
pub round_robin :
    (k : Kernel) (n t : ℕ)
    → k.to_be_destroyed ≡ none
    → get_elem? k.ready_list n ≡ some t
    → (k' : Kernel) × (yield_times (suc n) k ≡ some k') × (k'.current_thread ≡ t)
unfolding after_yield
round_robin k zero t d h =
    let (next, ts, e) = nonempty k.ready_list zero t h in
    let y = yield_next k next ts d e in (after_yield k next ts, ground arith, ground arith)
round_robin k (suc m) t d h =
    let (next, ts, e) = nonempty k.ready_list (suc m) t h in
    let y = yield_next k next ts d e in
    let (k', r, c) =
      round_robin (after_yield k next ts) m t refl
        (get_elem?-append ts k.current_thread t m (ground arith)) in
    (k', rw y r, c)

-- `n` calls of `V`.
abbrev pub v_times : ℕ → SemaphoreId → Kernel → Kernel
v_times zero s k = k
v_times (suc n) s k = v_times n s (semaphore_v s k)

same_self : (s : SemaphoreId) → same_id s s ≡ true
same_self s = ground arith

append_nil : (xs : List ℕ) → xs ++ [] ≡ xs
append_nil [] = refl
append_nil (x ∷ xs) = ap (λ (ys : List ℕ). x ∷ ys) (append_nil xs)

append_assoc : (xs ys zs : List ℕ) → (xs ++ ys) ++ zs ≡ xs ++ (ys ++ zs)
append_assoc [] ys zs = refl
append_assoc (x ∷ xs) ys zs = ap (λ (us : List ℕ). x ∷ us) (append_assoc xs ys zs)

drop_nil : (n : ℕ) → drop {A = ℕ} n [] ≡ []
drop_nil zero = refl
drop_nil (suc n) = refl

take_nil : (n : ℕ) → take {A = ℕ} n [] ≡ []
take_nil zero = refl
take_nil (suc n) = refl

-- `n` calls of `V` move the first `n` threads of the queue to the end of the ready list, in their
-- order, and add `n` to the value, whether or not so many threads wait.
pub v_times_lem :
    (n : ℕ) (s : SemaphoreId) (k : Kernel)
    → ((v_times n s k).ready_list ≡ k.ready_list ++ take n (k.semaphores s).queue)
      × (((v_times n s k).semaphores s).queue ≡ drop n (k.semaphores s).queue)
      × (((v_times n s k).semaphores s).value ≡ (k.semaphores s).value + n)
v_times_lem zero s k = (sym (append_nil k.ready_list), refl, omega arith)
v_times_lem (suc n) s k =
    let (a, b, c) = v_times_lem n s (semaphore_v s k) in
    let (f, g, h) = go (semaphore_v s k) (semaphore_v-Gives s k) in (a ∙ f, b ∙ g, omega arith)
  where
    go :
        (j : Kernel)
        → Gives s k j
        → (j.ready_list ++ take n (j.semaphores s).queue
            ≡ k.ready_list ++ take (suc n) (k.semaphores s).queue)
          × (drop n (j.semaphores s).queue ≡ drop (suc n) (k.semaphores s).queue)
          × ((j.semaphores s).value ≡ suc (k.semaphores s).value)
    go _ (kept e) = rw (same_self s, e, take_nil n, drop_nil n) (refl, refl, refl)
    go _ (woke t ts e) =
        rw (same_self s, e) (append_assoc k.ready_list (t ∷ []) (take n ts), refl, refl)
