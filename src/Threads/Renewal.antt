-- ===== src/Threads/Renewal.antt =====
-- NachOS-4.0/code/threads/synch.cc: a change of stage and a `V` leave the locks that they are not about.
use hcmus_csc10007_operating.Common.{ℕ, ◌≡◌, refl, true, false, Option, List, assign_at, arith}
use hcmus_csc10007_operating.Threads.{
  SemaphoreId, of_lock, Semaphore, Call, Stage, in_user_code, calling, Kernel, same_id,
}
use hcmus_csc10007_operating.Threads.Synch.{advance}
use hcmus_csc10007_operating.Threads.Waking.{Gives, kept, woke}
use hcmus_csc10007_operating.Threads.Routines.{Advances, to_user, to_call, advance-Advances}
use hcmus_csc10007_operating.Threads.Exclusion.{
  inside, stage_public, all_public, LockState, Excludes, Excluding, LockState-assign_at,
}

-- The stage of the current thread changes.
pub renew :
    (k : Kernel) (later : ℕ → List Call) (semaphores : SemaphoreId → Semaphore)
    (lock_holder : ℕ → Option ℕ) (y : Stage)
    → ((t : ℕ) → stage_public (k.now t) ≡ true)
    → ((t : ℕ) → all_public (later t) ≡ true)
    → stage_public y ≡ true
    → ((l : ℕ)
        → LockState l
            (semaphores (of_lock l)).value
            (lock_holder l)
            (assign_at k.now k.current_thread y))
    → Excludes (assign_at k.now k.current_thread y) later semaphores lock_holder
renew k later semaphores lock_holder y n p q h = record {
  now_public = λ t. let g = n t in ground arith;
  later_public = p;
  locks = h;
}

-- Where the stage to come may be any that is outside the locks.
pub advance-Excluding :
    (k : Kernel)
    → ((t : ℕ) → stage_public (k.now t) ≡ true)
    → ((t : ℕ) → all_public (k.later t) ≡ true)
    → ((y : Stage)
        → ((l : ℕ) → inside y l ≡ false)
        → (l : ℕ)
        → LockState l
            (k.semaphores (of_lock l)).value
            (k.lock_holder l)
            (assign_at k.now k.current_thread y))
    → Excluding (advance k)
advance-Excluding k n p h = go (advance k) (advance-Advances k)
  where
    go : (j : Kernel) → Advances k j → Excluding j
    go _ to_user =
        renew k k.later k.semaphores k.lock_holder in_user_code n p refl (h _ (λ l. refl))
    go _ (to_call c cs e) =
        let q = p k.current_thread in
        renew k _ k.semaphores k.lock_holder (calling c) n (λ t. let r = p t in ground arith)
          (ground arith) (h _ (λ l. refl))

pub advance_outside :
    (k : Kernel)
    → Excluding k
    → ((l : ℕ) → inside (k.now k.current_thread) l ≡ false)
    → Excluding (advance k)
advance_outside k x o =
    advance-Excluding k x.now_public x.later_public
      (λ y q l. LockState-assign_at l _ _ k.now k.current_thread y (o l) (q l) (x.locks l))

-- A `V` that is not on a lock's semaphore leaves the locks.
pub Gives-Excluding :
    (s : SemaphoreId) (k k' : Kernel)
    → ((l : ℕ) → same_id (of_lock l) s ≡ false)
    → Excluding k
    → Gives s k k'
    → Excluding k'
Gives-Excluding s k _ n x (kept e) = record {
  now_public = x.now_public;
  later_public = x.later_public;
  locks = λ l. let g = n l in rw g (x.locks l);
}
Gives-Excluding s k _ n x (woke t ts e) = record {
  now_public = x.now_public;
  later_public = x.later_public;
  locks = λ l. let g = n l in rw g (x.locks l);
}
