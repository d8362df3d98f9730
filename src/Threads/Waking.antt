-- ===== src/Threads/Waking.antt =====
-- NachOS-4.0/code/threads/synch.cc: what `Semaphore::V` does to the lists of threads.
use hcmus_csc10007_operating.Common.{
  ℕ, suc, ◌≡◌, refl, List, [], ◌∷◌, ◌++◌, arith, Bool-cases, inl, inr,
}
use hcmus_csc10007_operating.Threads.{
  ready, SemaphoreId, Kernel, same_id, set_status, set_semaphore, ready_to_run,
}
use hcmus_csc10007_operating.Threads.Synch.{semaphore_v}
use hcmus_csc10007_operating.Threads.Queues.{Valid, count-append, in_p-append, waits_one}
use hcmus_csc10007_operating.Threads.Calls.{same_id_lem}

-- Where `V` finds the queue empty and where it wakes the first thread of it.
pub data Gives (s : SemaphoreId) (k : Kernel) : Kernel → Type 0 where
  kept :
      (k.semaphores s).queue ≡ []
      → Gives s k
          (set_semaphore k s (record (k.semaphores s) { value = suc (k.semaphores s).value }))
  woke :
      (t : ℕ) (ts : List ℕ)
      → (k.semaphores s).queue ≡ t ∷ ts
      → Gives s k (
          set_semaphore
            (record (set_status k t ready) { ready_list = k.ready_list ++ (t ∷ []) })
            s
            (record { value = suc (k.semaphores s).value; queue = ts }))

pub semaphore_v-Gives : (s : SemaphoreId) (k : Kernel) → Gives s k (semaphore_v s k)
unfolding semaphore_v ready_to_run
semaphore_v-Gives s k = go (k.semaphores s).queue refl
  where
    go : (q : List ℕ) → (k.semaphores s).queue ≡ q → Gives s k (semaphore_v s k)
    go [] e =
        let q : semaphore_v s k
            ≡ set_semaphore k s (record (k.semaphores s) { value = suc (k.semaphores s).value }) =
          ground arith in
        rw q (kept e)
    go (t ∷ ts) e =
        let q : semaphore_v s k
            ≡ set_semaphore
                (record (set_status k t ready) { ready_list = k.ready_list ++ (t ∷ []) }) s
                (record { value = suc (k.semaphores s).value; queue = ts }) =
          ground arith in
        rw q (woke t ts e)

pub Gives-Valid : (s : SemaphoreId) (k k' : Kernel) → Valid k → Gives s k k' → Valid k'
Gives-Valid s k _ v (kept e) = record {
  ready_once = v.ready_once;
  queued_once = λ t i. let q = v.queued_once t i in ground arith;
  current_running = v.current_running;
  current_stopped = v.current_stopped;
  only_current = v.only_current;
  finishing = v.finishing;
  none_destroyed = v.none_destroyed;
  unborn = v.unborn;
  unborn_now = v.unborn_now;
  covered = λ i.
      let c = v.covered i in
      elim (Bool-cases (same_id i s)) [
        | inl g ↦ let p = same_id_lem i s g in inl (ground arith)
        | inr g ↦ ground arith
      ];
}
Gives-Valid s k _ v (woke t ts e) =
    let b = v.queued_once t s in
    record {
      ready_once =
          λ j. let c = v.ready_once j in let a = count-append j t k.ready_list in ground arith;
      queued_once = λ j i.
          let q = v.queued_once j i in
          elim (Bool-cases (same_id i s)) [
            | inl g ↦ let p = same_id_lem i s g in ground arith
            | inr g ↦ let w = waits_one (k.now t) i s (ground arith) g in ground arith
          ];
      current_running = λ z. let r = v.current_running z in ground arith;
      current_stopped = λ f z. let c = v.current_stopped f z in ground arith;
      only_current = λ j z. let o = v.only_current j in ground arith;
      finishing = λ z. let (f, g) = v.finishing z in (f, ground arith);
      none_destroyed = v.none_destroyed;
      unborn = λ j l. let u = v.unborn j l in ground arith;
      unborn_now = v.unborn_now;
      covered = λ i.
          let c = v.covered i in
          let a = in_p-append k.now i t k.ready_list in
          elim (Bool-cases (same_id i s)) [
            | inl g ↦ let p = same_id_lem i s g in inr (ground arith)
            | inr g ↦ ground arith
          ];
    }
