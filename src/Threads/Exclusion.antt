-- ===== src/Threads/Exclusion.antt =====
-- NachOS-4.0/code/threads/synch.cc: a lock has one owner at most.
--
-- A thread has the lock from the end of the `P` of `Acquire` to the `V` of `Release`, though
-- `lockHolder` is written later and cleared earlier.
use hcmus_csc10007_operating.Common.{
  ℕ, suc, ◌-◌, ◌≡◌, ◌≢◌, refl, sym, ◌∙◌, Bool, true, false, Option, none, some, List, [], ◌∷◌, ◌==◌,
  ◌&&◌, assign_at, arith, ℕ_discrete,
}
use hcmus_csc10007_operating.Threads.{
  SemaphoreId, of_lock, Semaphore, Call, sem_p, sem_v, Stage, calling, recording_holder, unlocking,
  Kernel,
}

-- Between the `P` of `Acquire` and the record of the holder, or between its removal and the `V`.
abbrev pub inside : Stage → ℕ → Bool
inside (recording_holder i) l = i == l
inside (unlocking i) l = i == l
inside _ l = false

-- Calls of `P` and `V` on the semaphore of a lock stand only in `Acquire` and `Release`.
abbrev pub is_public : Call → Bool
is_public (sem_p (of_lock _)) = false
is_public (sem_v (of_lock _)) = false
is_public _ = true

abbrev pub stage_public : Stage → Bool
stage_public (calling c) = is_public c
stage_public _ = true

abbrev pub all_public : List Call → Bool
all_public [] = true
all_public (c ∷ cs) = is_public c && all_public cs

pub data LockState (l : ℕ) (value : ℕ) (holder : Option ℕ) (now : ℕ → Stage) : Type 0 where
  free :
      value ≡ 1
      → holder ≡ none
      → ((t : ℕ) → inside (now t) l ≡ false)
      → LockState l value holder now
  held :
      (t : ℕ)
      → value ≡ 0
      → holder ≡ some t
      → ((u : ℕ) → inside (now u) l ≡ false)
      → LockState l value holder now
  passing :
      (t : ℕ)
      → value ≡ 0
      → holder ≡ none
      → inside (now t) l ≡ true
      → ((u : ℕ) → u ≢ t → inside (now u) l ≡ false)
      → LockState l value holder now

pub record Excludes (now : ℕ → Stage) (later : ℕ → List Call) (semaphores : SemaphoreId → Semaphore)
    (lock_holder : ℕ → Option ℕ) : Type 0 where
  pub now_public : (t : ℕ) → stage_public (now t) ≡ true
  pub later_public : (t : ℕ) → all_public (later t) ≡ true
  pub locks : (l : ℕ) → LockState l (semaphores (of_lock l)).value (lock_holder l) now

abbrev pub Excluding : Kernel → Type 0
Excluding k = Excludes k.now k.later k.semaphores k.lock_holder

-- A thread changes its stage, and neither stage is inside the lock.
pub LockState-assign_at :
    (l value : ℕ) (holder : Option ℕ) (now : ℕ → Stage) (c : ℕ) (x : Stage)
    → inside (now c) l ≡ false
    → inside x l ≡ false
    → LockState l value holder now
    → LockState l value holder (assign_at now c x)
LockState-assign_at l value holder now c x e f (free a b h) =
    free a b (λ t. let g = h t in ground arith)
LockState-assign_at l value holder now c x e f (held t a b h) =
    held t a b (λ u. let g = h u in ground arith)
LockState-assign_at l value holder now c x e f (passing t a b i h) =
    passing t a b (ground arith) (λ u n. let g = h u n in ground arith)

-- The lock is taken.
pub LockState-take :
    (l value : ℕ) (holder : Option ℕ) (now : ℕ → Stage) (c : ℕ)
    → value ≢ 0
    → LockState l value holder now
    → LockState l (value - 1) holder (assign_at now c (recording_holder l))
LockState-take l value holder now c z (free a b h) =
    passing c (omega arith) b (ground arith) (λ u n. let g = h u in ground arith)
LockState-take l value holder now c z (held t a b h) = absurd (z a)
LockState-take l value holder now c z (passing t a b i h) = absurd (z a)

-- The holder is recorded.
pub LockState-record :
    (l value : ℕ) (holder : Option ℕ) (now : ℕ → Stage) (c : ℕ) (x : Stage)
    → inside (now c) l ≡ true
    → inside x l ≡ false
    → LockState l value holder now
    → LockState l value (some c) (assign_at now c x)
LockState-record l value holder now c x e f (free a b h) = let g = h c in ground arith
LockState-record l value holder now c x e f (held t a b h) = let g = h c in ground arith
LockState-record l value holder now c x e f (passing t a b i h) = held c a refl (λ u.
    elim (ℕ_discrete u c) [
      | yes p ↦ ground arith
      | no n ↦ elim (ℕ_discrete u t) [
        | yes p ↦ let g = h c (λ q. n (p ∙ sym q)) in ground arith
        | no m ↦ let g = h u m in ground arith
      ]
    ])

-- The holder clears the record.
pub LockState-clear :
    (l value : ℕ) (holder : Option ℕ) (now : ℕ → Stage) (c : ℕ)
    → holder ≡ some c
    → LockState l value holder now
    → LockState l value none (assign_at now c (unlocking l))
LockState-clear l value holder now c e (free a b h) = ground arith
LockState-clear l value holder now c e (held t a b h) =
    passing c a refl (ground arith) (λ u n. let g = h u in ground arith)
LockState-clear l value holder now c e (passing t a b i h) = ground arith

-- The unit is given back.
pub LockState-give :
    (l value : ℕ) (holder : Option ℕ) (now : ℕ → Stage) (c : ℕ) (x : Stage)
    → inside (now c) l ≡ true
    → inside x l ≡ false
    → LockState l value holder now
    → LockState l (suc value) holder (assign_at now c x)
LockState-give l value holder now c x e f (free a b h) = let g = h c in ground arith
LockState-give l value holder now c x e f (held t a b h) = let g = h c in ground arith
LockState-give l value holder now c x e f (passing t a b i h) = free (omega arith) b (λ u.
    elim (ℕ_discrete u c) [
      | yes p ↦ ground arith
      | no n ↦ elim (ℕ_discrete u t) [
        | yes p ↦ let g = h c (λ q. n (p ∙ sym q)) in ground arith
        | no m ↦ let g = h u m in ground arith
      ]
    ])
