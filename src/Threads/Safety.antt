-- ===== src/Threads/Safety.antt =====
-- NachOS-4.0/code/threads/synch.cc: mutual exclusion by locks, and no wake-up is lost.
use hcmus_csc10007_operating.Common.{
  ℕ, ◌<◌, ◌≡◌, ◌⊎◌, sym, ◌∙◌, Bool, Option, some, [], arith, ℕ_discrete,
}
use hcmus_csc10007_operating.Threads.{
  SemaphoreId, of_lock, Stage, recording_holder, unlocking, Kernel,
}
use hcmus_csc10007_operating.Threads.Synch.{Reachable}
use hcmus_csc10007_operating.Threads.Steps.{Reachable-Valid}
use hcmus_csc10007_operating.Threads.Exclusion.{LockState, free, held, passing}
use hcmus_csc10007_operating.Threads.Locking.{Reachable-Excluding}

-- The thread is past the `P` of `Acquire` of the lock and before the `V` of `Release`.
unfoldable pub OwnsLock : Kernel → ℕ → ℕ → Type 0
OwnsLock k l t =
    (k.now t ≡ recording_holder l) ⊎ ((k.lock_holder l ≡ some t) ⊎ (k.now t ≡ unlocking l))

one_owner :
    (l value : ℕ) (holder : Option ℕ) (now : ℕ → Stage) (t u : ℕ)
    → LockState l value holder now
    → (now t ≡ recording_holder l) ⊎ ((holder ≡ some t) ⊎ (now t ≡ unlocking l))
    → (now u ≡ recording_holder l) ⊎ ((holder ≡ some u) ⊎ (now u ≡ unlocking l))
    → (t ≡ u) × (value ≡ 0)
one_owner l value holder now t u (free a b h) p q = let g = h t in ground arith
one_owner l value holder now t u (held w a b h) p q =
    let g = h t in let g' = h u in (ground arith, a)
one_owner l value holder now t u (passing w a b i h) p q =
    let f : (x : ℕ)
        → (now x ≡ recording_holder l) ⊎ ((holder ≡ some x) ⊎ (now x ≡ unlocking l))
        → x ≡ w =
      λ x r. elim (ℕ_discrete x w) [ yes e ↦ e | no n ↦ let g = h x n in ground arith ] in
    (f t p ∙ sym (f u q), a)

-- In every kernel that the steps reach, two threads past the `P` of `Acquire` of one lock and not
-- yet at the end of its `Release` are the same thread, and the lock's semaphore is 0.
pub mutual_exclusion :
    (values : ℕ → ℕ) (k : Kernel) (l t u : ℕ)
    → Reachable values k
    → OwnsLock k l t
    → OwnsLock k l u
    → (t ≡ u) × ((k.semaphores (of_lock l)).value ≡ 0)
unfolding OwnsLock
mutual_exclusion values k l t u r p q =
    one_owner l _ (k.lock_holder l) k.now t u ((Reachable-Excluding values k r).locks l) p q

-- In every kernel that the steps reach, where the processor idles (the current thread sleeps and
-- no thread is ready), no thread waits on a semaphore whose value is not 0.
pub no_lost_wakeup :
    (values : ℕ → ℕ) (k : Kernel) (finishing : Bool) (s : SemaphoreId)
    → Reachable values k
    → k.sleeping ≡ some finishing
    → k.ready_list ≡ []
    → 0 < (k.semaphores s).value
    → (k.semaphores s).queue ≡ []
no_lost_wakeup values k f s r z e p = let c = (Reachable-Valid values k r).covered s in ground arith
