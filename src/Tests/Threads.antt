-- ===== src/Tests/Threads.antt =====
-- Threads, semaphores, locks and the named semaphores (NachOS-4.0/code/threads) on concrete inputs.
use hcmus_csc10007_operating.Common.{
  ℕ, ◌<◌, ◌≡◌, refl, true, false, none, some, [], ◌∷◌, inl, arith, get_elem?, assign_at,
}
use hcmus_csc10007_operating.Threads.{
  plain, of_lock, Call, acquire, fork, sem_p, calling, recording_holder, Kernel, set_now,
  new_thread, thread_fork, thread_sleep, set_semaphore,
}
use hcmus_csc10007_operating.Threads.Synch.{
  initial_kernel, Reachable, begins, then_step, calls, performs, may_fork, may_acquire, may_p,
  perform, perform_stage, perform_call, advance, p_then, semaphore_p, semaphore_v, new_semaphore,
}
use hcmus_csc10007_operating.Threads.Queues.{Valid}
use hcmus_csc10007_operating.Threads.Steps.{Reachable-Valid}
use hcmus_csc10007_operating.Threads.Safety.{OwnsLock, mutual_exclusion, no_lost_wakeup}
use hcmus_csc10007_operating.Common.{suc, ◌*◌, ◌+◌, length}
use hcmus_csc10007_operating.Threads.{broadcast, of_waiter}
use hcmus_csc10007_operating.Threads.Queues.{count}
use hcmus_csc10007_operating.Threads.Appending.{Appends, Reachable-Appends}
use hcmus_csc10007_operating.Threads.Broadcast.{perform_times, Broadcasting, broadcast_ends}
use hcmus_csc10007_operating.Threads.Rounds.{yield_times, round_robin}
use hcmus_csc10007_operating.Bitmap.{find_and_set, find_from, test, mark}
use hcmus_csc10007_operating.Bitmap.Bits
use hcmus_csc10007_operating.Bitmap.Bits.{is_set_lem}
use hcmus_csc10007_operating.Bitmap.{is_set, word_of}
use hcmus_csc10007_operating.Common.Bits.{bit, bit-zero}
use hcmus_csc10007_operating.Common.{◌==◌, ◌%◌, sym, ap, ◌∙◌}
use hcmus_csc10007_operating.SemTable.{
  find_name, find_name_from, Name, SemTable, create_sem, signal_sem, named_sem, strcmp_eq,
}
use hcmus_csc10007_operating.SemTable.Names.{Consistent, Creates, new_table_lem}
use hcmus_csc10007_operating.SemTable.Creation.{create_sem-Creates, create_sem-signal_sem}

-- Each plain semaphore starts with its number as its value.
abbrev start : Kernel
start = initial_kernel (λ n. n)

-- The first thread in a call.
abbrev in_call : Call → Kernel
in_call c = set_now start (calling c)

abbrev after_fork : Kernel
after_fork = advance (thread_fork 1 (new_thread (in_call fork)))

fork_reached : Reachable (λ n. n) after_fork
unfolding initial_kernel perform perform_stage perform_call
fork_reached =
    then_step (in_call fork) after_fork
      (then_step start (in_call fork) begins (calls fork refl refl may_fork))
      (performs after_fork refl refl)

Reachable-Valid_example : Valid after_fork
Reachable-Valid_example = Reachable-Valid (λ n. n) after_fork fork_reached

-- The first thread has taken the lock 0 and has not recorded itself yet.
abbrev locked : Kernel
locked =
    set_now (set_semaphore (in_call (acquire 0)) (of_lock 0) (record { value = 0; queue = [] }))
      (recording_holder 0)

lock_reached : Reachable (λ n. n) locked
unfolding initial_kernel perform perform_stage perform_call p_then semaphore_p
lock_reached =
    then_step (in_call (acquire 0)) locked
      (then_step start (in_call (acquire 0)) begins (calls (acquire 0) refl refl (may_acquire 0)))
      (performs locked refl refl)

lock_owned : OwnsLock locked 0 0
unfolding OwnsLock initial_kernel
lock_owned = inl refl

Reachable-Appends_example : Appends locked
Reachable-Appends_example = Reachable-Appends (λ n. n) locked lock_reached

mutual_exclusion_example : (◌≡◌ {A = ℕ} 0 0) × ((locked.semaphores (of_lock 0)).value ≡ 0)
mutual_exclusion_example = mutual_exclusion (λ n. n) locked 0 0 0 lock_reached lock_owned lock_owned

-- The first thread sleeps on the semaphore 0.
abbrev asleep : Kernel
asleep =
    thread_sleep false
      (set_semaphore (in_call (sem_p (plain 0))) (plain 0) (record { value = 0; queue = 0 ∷ [] }))

asleep_reached : Reachable (λ n. n) asleep
unfolding initial_kernel perform perform_stage perform_call p_then semaphore_p thread_sleep
asleep_reached =
    then_step (in_call (sem_p (plain 0))) asleep
      (then_step start (in_call (sem_p (plain 0))) begins
        (calls (sem_p (plain 0)) refl refl (may_p 0)))
      (performs asleep refl refl)

asleep_idle :
    (asleep.sleeping ≡ some false)
    × (asleep.ready_list ≡ [])
    × (0 < (asleep.semaphores (plain 5)).value)
unfolding initial_kernel thread_sleep
asleep_idle = (refl, refl, omega arith)

no_lost_wakeup_example : (asleep.semaphores (plain 5)).queue ≡ []
no_lost_wakeup_example =
    no_lost_wakeup (λ n. n) asleep false (plain 5) asleep_reached asleep_idle.0 asleep_idle.1
      asleep_idle.2

-- Two threads are ready, and wait on a semaphore in another kernel.
abbrev two_ready : Kernel
two_ready = record start { ready_list = 1 ∷ 2 ∷ [] }

two_ready_lem : (two_ready.to_be_destroyed ≡ none) × (get_elem? two_ready.ready_list 1 ≡ some 2)
unfolding initial_kernel
two_ready_lem = (refl, refl)

round_robin_example : (k' : Kernel) × (yield_times 2 two_ready ≡ some k') × (k'.current_thread ≡ 2)
round_robin_example = round_robin two_ready 1 2 two_ready_lem.0 two_ready_lem.1

abbrev two_wait : Kernel
two_wait = set_semaphore start (plain 0) (record { value = 0; queue = 1 ∷ 2 ∷ [] })

-- The table that the constructor makes.
abbrev empty_table : SemTable
empty_table = new_table_lem.0

empty_table-Consistent : Consistent empty_table
empty_table-Consistent = new_table_lem.2

abbrev some_name : Name
some_name = 97 ∷ 98 ∷ []

create_sem-Creates_example :
    Creates some_name 1
      (plain 7)
      empty_table
      start
      (create_sem some_name 1 (plain 7) empty_table start)
create_sem-Creates_example =
    create_sem-Creates some_name 1 (plain 7) empty_table start empty_table-Consistent

-- The same table written out.
abbrev ten_free : SemTable
ten_free = record { bitmap = record { num_bits = 10; map = 0 ∷ [] }; slots = λ i. none }

ten_free-Consistent : Consistent ten_free
unfolding Bits.IsValid
ten_free-Consistent = record {
  size = refl;
  valid = omega arith;
  filled = λ i l.
      let e : is_set ten_free.bitmap i ≡ (bit (word_of ten_free.bitmap i) (i % 32) == 1) =
        is_set_lem ten_free.bitmap i in
      let z : word_of ten_free.bitmap i ≡ 0 = ground arith in
      let w : bit (word_of ten_free.bitmap i) (i % 32) ≡ 0 =
        ap (λ (x : ℕ). bit x (i % 32)) z ∙ bit-zero (i % 32) in
      sym (e ∙ ap (λ (x : ℕ). x == 1) w);
  different = λ i j name p q a b. ground arith;
}

abbrev one_name : SemTable
one_name = record {
  bitmap = record { num_bits = 10; map = 1 ∷ [] };
  slots = assign_at (λ i. none) 0 (some (record { name = some_name; sem = plain 7 }));
}

one_created :
    create_sem some_name 1 (plain 7) ten_free start
    ≡ some (some 0, (one_name, set_semaphore start (plain 7) (new_semaphore 1)))
unfolding create_sem find_name find_name_from find_and_set find_from test mark
one_created = refl

create_sem-signal_sem_example :
    Consistent one_name
    × ((j : Kernel) → signal_sem some_name one_name j ≡ some (true, semaphore_v (plain 7) j))
    × ((other : Name)
        → strcmp_eq other some_name ≡ false
        → named_sem other one_name ≡ named_sem other ten_free)
create_sem-signal_sem_example =
    create_sem-signal_sem some_name 1 (plain 7) ten_free one_name start
      (set_semaphore start (plain 7) (new_semaphore 1)) 0 ten_free-Consistent one_created

-- The first thread holds the lock 0 and is in `Broadcast` of the condition 3 with two waiters.
abbrev broadcasting : Kernel
broadcasting = record (in_call (broadcast 3 0)) {
  lock_holder = λ l. some 0;
  wait_queue = λ c. 1 ∷ 2 ∷ [];
}

broadcasting-Broadcasting : Broadcasting 3 0 (1 ∷ 2 ∷ []) [] broadcasting
unfolding initial_kernel
broadcasting-Broadcasting = record { at_loop = refl; holds = refl; waiters = refl; after = refl }

broadcast_ends_example :
    (j : Kernel) × (perform_times (suc (2 * length {A = ℕ} (1 ∷ 2 ∷ []))) broadcasting
      ≡ some (advance j))
    × (j.wait_queue 3 ≡ [])
    × (j.later j.current_thread ≡ [])
    × (j.lock_holder 0 ≡ some j.current_thread)
    × ((x : ℕ)
        → (j.semaphores (of_waiter x)).value
          ≡ (broadcasting.semaphores (of_waiter x)).value + count x (1 ∷ 2 ∷ []))
broadcast_ends_example = broadcast_ends 3 0 (1 ∷ 2 ∷ []) [] broadcasting broadcasting-Broadcasting
