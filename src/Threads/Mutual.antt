-- ===== src/Threads/Mutual.antt =====
-- NachOS-4.0/code/threads/synch.cc: the routines keep each lock with one owner at most.
use hcmus_csc10007_operating.Common.{
  ℕ, suc, ◌≡◌, refl, sym, true, false, none, some, List, ◌==◌, if◌then◌else◌, assign_at, arith,
  Bool-cases, inl, inr, ℕ_discrete,
}
use hcmus_csc10007_operating.Threads.{
  SemaphoreId, of_lock, Stage, recording_holder, unlocking, Kernel, same_id, set_now, set_semaphore,
  thread_sleep,
}
use hcmus_csc10007_operating.Threads.Synch.{semaphore_v, advance, p_then}
use hcmus_csc10007_operating.Threads.Calls.{same_id_lem}
use hcmus_csc10007_operating.Threads.Waking.{Gives, kept, woke, semaphore_v-Gives}
use hcmus_csc10007_operating.Threads.Routines.{Passes, sleeps, takes, p_then-Passes}
use hcmus_csc10007_operating.Threads.Exclusion.{
  inside, LockState, Excludes, Excluding, LockState-assign_at, LockState-take, LockState-record,
  LockState-clear, LockState-give,
}
use hcmus_csc10007_operating.Threads.Renewal.{renew, advance-Excluding, advance_outside}

-- A thread that goes to sleep in `P` changes no value.
asleep-Excluding :
    (k : Kernel) (s : SemaphoreId) (q : List ℕ)
    → Excluding k
    → Excluding (thread_sleep false (set_semaphore k s (record (k.semaphores s) { queue = q })))
unfolding thread_sleep
asleep-Excluding k s q x = record {
  now_public = x.now_public;
  later_public = x.later_public;
  locks = λ l. elim (Bool-cases (same_id (of_lock l) s)) [
    | inl e ↦ let p = same_id_lem (of_lock l) s e in rw (e, sym p) (x.locks l)
    | inr e ↦ rw e (x.locks l)
  ];
}

module _ (k : Kernel) (x : Excluding k) where
  pub p-Excluding :
      (s : SemaphoreId)
      → ((l : ℕ) → same_id (of_lock l) s ≡ false)
      → ((l : ℕ) → inside (k.now k.current_thread) l ≡ false)
      → Excluding (p_then s advance k)
  p-Excluding s n o = go _ (p_then-Passes s _ k)
    where
      go : (j : Kernel) → Passes s advance k j → Excluding j
      go _ (sleeps z) = asleep-Excluding k s _ x
      go _ (takes z) =
          advance_outside _
            (record {
              now_public = x.now_public;
              later_public = x.later_public;
              locks = λ l. let g = n l in rw g (x.locks l);
            })
            o

  pub acquire-Excluding :
      (i : ℕ)
      → ((l : ℕ) → inside (k.now k.current_thread) l ≡ false)
      → Excluding (p_then (of_lock i) (λ (j : Kernel). set_now j (recording_holder i)) k)
  acquire-Excluding i o = go _ (p_then-Passes (of_lock i) _ k)
    where
      go :
          (j : Kernel)
          → Passes (of_lock i) (λ (j : Kernel). set_now j (recording_holder i)) k j
          → Excluding j
      go _ (sleeps z) = asleep-Excluding k (of_lock i) _ x
      go _ (takes z) =
          renew k k.later _ k.lock_holder (recording_holder i) x.now_public x.later_public refl
            (λ l. elim (ℕ_discrete l i) [
              | yes e ↦
                  let b : (l == i) ≡ true = ground arith in
                  rw (b, sym e) (LockState-take l _ _ k.now k.current_thread (rw e z) (x.locks l))
              | no e ↦
                  let b : (l == i) ≡ false = ground arith in
                  rw b (
                    LockState-assign_at l _ _ k.now k.current_thread (recording_holder i) (o l)
                      (ground arith) (x.locks l))
            ])

  pub record-Excluding :
      (i : ℕ)
      → k.now k.current_thread ≡ recording_holder i
      → Excluding
          (advance (record k { lock_holder = assign_at k.lock_holder i (some k.current_thread) }))
  record-Excluding i e = advance-Excluding _ x.now_public x.later_public (λ y q l.
      elim (ℕ_discrete l i) [
        | yes p ↦
            let b : (l == i) ≡ true = ground arith in
            rw b (LockState-record l _ _ k.now k.current_thread y (ground arith) (q l) (x.locks l))
        | no p ↦
            let b : (l == i) ≡ false = ground arith in
            rw b
              (LockState-assign_at l _ _ k.now k.current_thread y (ground arith) (q l) (x.locks l))
      ])

  pub release-Excluding :
      (i : ℕ)
      → k.lock_holder i ≡ some k.current_thread
      → ((l : ℕ) → inside (k.now k.current_thread) l ≡ false)
      → Excludes
          (assign_at k.now k.current_thread (unlocking i))
          k.later
          k.semaphores
          (assign_at k.lock_holder i none)
  release-Excluding i e o =
      renew k k.later k.semaphores _ (unlocking i) x.now_public x.later_public refl (λ l.
        elim (ℕ_discrete l i) [
          | yes p ↦
              let b : (l == i) ≡ true = ground arith in
              rw (b, sym p) (LockState-clear l _ _ k.now k.current_thread (rw p e) (x.locks l))
          | no p ↦
              let b : (l == i) ≡ false = ground arith in
              rw b (
                LockState-assign_at l _ _ k.now k.current_thread (unlocking i) (o l) (ground arith)
                  (x.locks l))
        ])

  pub unlock-Excluding :
      (i : ℕ)
      → k.now k.current_thread ≡ unlocking i
      → Excluding (advance (semaphore_v (of_lock i) k))
  unlock-Excluding i e = go _ (semaphore_v-Gives (of_lock i) k)
    where
      give :
          (y : Stage)
          → ((l : ℕ) → inside y l ≡ false)
          → (q : List ℕ) (l : ℕ)
          → LockState l
              (if l == i
                then (record (k.semaphores (of_lock i)) {
                  value = suc (k.semaphores (of_lock i)).value;
                  queue = q;
                })
                else k.semaphores (of_lock l)).value
              (k.lock_holder l)
              (assign_at k.now k.current_thread y)
      give y o q l = elim (ℕ_discrete l i) [
        | yes p ↦
            let b : (l == i) ≡ true = ground arith in
            rw (b, sym p)
              (LockState-give l _ _ k.now k.current_thread y (ground arith) (o l) (x.locks l))
        | no p ↦
            let b : (l == i) ≡ false = ground arith in
            rw b
              (LockState-assign_at l _ _ k.now k.current_thread y (ground arith) (o l) (x.locks l))
      ]

      go : (j : Kernel) → Gives (of_lock i) k j → Excluding (advance j)
      go _ (kept z) = advance-Excluding _ x.now_public x.later_public (λ y o l. give y o _ l)
      go _ (woke t ts z) = advance-Excluding _ x.now_public x.later_public (λ y o l. give y o ts l)
