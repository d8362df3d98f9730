-- ===== src/Threads/Holding.antt =====
-- NachOS-4.0/code/threads/synch.cc and thread.cc: the calls keep each lock with one owner at most.
use hcmus_csc10007_operating.Common.{
  ℕ, ◌≡◌, refl, true, false, Option, none, some, List, [], ◌∷◌, assign_at, ◌>>=◌, arith, Bool-cases,
  inl, inr,
}
use hcmus_csc10007_operating.Threads.{
  SemaphoreId, of_lock, of_waiter, release, signal, broadcast, in_user_code, calling, Kernel,
  same_id, set_now, ready_to_run, new_thread, thread_fork, thread_yield,
}
use hcmus_csc10007_operating.Threads.Synch.{
  semaphore_v, advance, lock_release, condition_wait, condition_signal, condition_broadcast,
  is_held_by_current_thread,
}
use hcmus_csc10007_operating.Threads.Queues.{Valid, Yields, alone, yields, thread_yield-Yields}
use hcmus_csc10007_operating.Threads.Waking.{Gives, kept, woke, semaphore_v-Gives}
use hcmus_csc10007_operating.Threads.Routines.{
  Keeps, refused, sound, Advances, to_user, to_call, advance-Advances,
}
use hcmus_csc10007_operating.Threads.Exclusion.{inside, Excluding, LockState-assign_at}
use hcmus_csc10007_operating.Threads.Renewal.{renew, advance_outside, Gives-Excluding}
use hcmus_csc10007_operating.Threads.Mutual.{release-Excluding}

abbrev pub Safe : Option Kernel → Type 0
Safe = Keeps Excluding

pub yield-Safe : (k : Kernel) → k.to_be_destroyed ≡ none → Excluding k → Safe (thread_yield k)
yield-Safe k d x = go _ (thread_yield-Yields k d)
  where
    go : (o : Option Kernel) → Yields k o → Safe o
    go _ (alone e) = sound k x
    go _ (yields next ts e) = sound _ x

pub held_lem :
    (l : ℕ) (k : Kernel)
    → is_held_by_current_thread l k ≡ true
    → k.lock_holder l ≡ some k.current_thread
unfolding is_held_by_current_thread
held_lem l k h = ground arith

Gives-stage :
    (s : SemaphoreId) (k k' : Kernel)
    → Gives s k k'
    → k'.now k'.current_thread ≡ k.now k.current_thread
Gives-stage s k _ (kept e) = refl
Gives-stage s k _ (woke t ts e) = refl

pub advance-same : (k : Kernel) → (advance k).to_be_destroyed ≡ k.to_be_destroyed
advance-same k = go _ (advance-Advances k)
  where
    go : (j : Kernel) → Advances k j → j.to_be_destroyed ≡ k.to_be_destroyed
    go _ to_user = refl
    go _ (to_call c cs e) = refl

module _ (k : Kernel) (v : Valid k) (x : Excluding k)
    (o : (l : ℕ) → inside (k.now k.current_thread) l ≡ false) where
  pub signal-Safe : (c l : ℕ) → Safe (condition_signal c l k >>= λ (j : Kernel). some (advance j))
  unfolding condition_signal
  signal-Safe c l = elim (Bool-cases (is_held_by_current_thread l k)) [
    | inl h ↦ rw h (go (k.wait_queue c))
    | inr h ↦ rw h refused
  ]
    where
      wake :
          (w : ℕ) (ws : List ℕ) (j : Kernel)
          → Gives (of_waiter w) (record k { wait_queue = assign_at k.wait_queue c ws }) j
          → Safe (some (advance j))
      wake w ws j g =
          let x' =
            Gives-Excluding (of_waiter w) (record k { wait_queue = assign_at k.wait_queue c ws }) j
              (λ l. refl) x g in
          sound _ (
            advance_outside j x' (
              rw
                (Gives-stage (of_waiter w) (record k { wait_queue = assign_at k.wait_queue c ws }) j
                  g)
                o))

      go :
          (ws : List ℕ)
          → Safe (
              some (
                advance (elim ws [
                  | [] ↦ k
                  | w ∷ ws ↦
                      semaphore_v
                        (of_waiter w)
                        (record k { wait_queue = assign_at k.wait_queue c ws })
                ])))
      go [] = sound _ (advance_outside k x o)
      go (w ∷ ws) =
          wake w ws _ (
            semaphore_v-Gives (of_waiter w) (record k { wait_queue = assign_at k.wait_queue c ws }))

  pub v-Safe :
      (s : SemaphoreId)
      → ((l : ℕ) → same_id (of_lock l) s ≡ false)
      → Excluding (advance (semaphore_v s k))
  v-Safe s n = go _ (semaphore_v-Gives s k)
    where
      go : (j : Kernel) → Gives s k j → Excluding (advance j)
      go _ (kept e) = advance_outside _ (Gives-Excluding s k _ n x (kept e)) o
      go _ (woke t ts e) = advance_outside _ (Gives-Excluding s k _ n x (woke t ts e)) o

  pub broadcast-Safe :
      (c l : ℕ)
      → k.now k.current_thread ≡ calling (broadcast c l)
      → Excluding (condition_broadcast c l k)
  unfolding condition_broadcast
  broadcast-Safe c l e = go (k.wait_queue c)
    where
      go :
          (ws : List ℕ)
          → Excluding (elim ws [
            | [] ↦ advance k
            | _ ↦ record (set_now k (calling (signal c l))) {
              later = assign_at k.later k.current_thread (broadcast c l ∷ k.later k.current_thread);
            }
          ])
      go [] = advance_outside k x o
      go (n ∷ ws) =
          renew k _ k.semaphores k.lock_holder (calling (signal c l)) x.now_public
            (λ t.
              let q = x.later_public t in let r = x.later_public k.current_thread in ground arith)
            refl (λ i. LockState-assign_at i _ _ k.now k.current_thread _ (o i) refl (x.locks i))

  pub wait-Safe : (c l : ℕ) → Safe (condition_wait c l k)
  unfolding condition_wait
  wait-Safe c l = elim (Bool-cases (is_held_by_current_thread l k)) [
    | inl h ↦ rw h (
        sound _ (
          renew k _ _ k.lock_holder (calling (release l)) x.now_public
            (λ t.
              let q = x.later_public t in let r = x.later_public k.current_thread in ground arith)
            refl (λ i. LockState-assign_at i _ _ k.now k.current_thread _ (o i) refl (x.locks i))))
    | inr h ↦ rw h refused
  ]

  pub release-Safe : (l : ℕ) → Safe (lock_release l k)
  unfolding lock_release
  release-Safe l = elim (Bool-cases (is_held_by_current_thread l k)) [
    | inl h ↦ rw h (sound _ (release-Excluding k x l (held_lem l k h) o))
    | inr h ↦ rw h refused
  ]

  forked-Excluding : Excluding (thread_fork k.next_thread (new_thread k))
  unfolding thread_fork new_thread ready_to_run
  forked-Excluding =
      let u = v.unborn_now k.next_thread (omega arith) in
      record {
        now_public = λ t. let q = x.now_public t in ground arith;
        later_public = λ t. let q = x.later_public t in ground arith;
        locks = λ l.
            LockState-assign_at l _ _ k.now k.next_thread in_user_code (rw u refl) refl (x.locks l);
      }

  pub fork-Safe : k.sleeping ≡ none → Excluding (advance (thread_fork k.next_thread (new_thread k)))
  unfolding thread_fork new_thread ready_to_run
  fork-Safe s =
      advance_outside (thread_fork k.next_thread (new_thread k)) forked-Excluding
        (λ l. let q = o l in ground arith)
