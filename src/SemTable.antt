-- ===== src/SemTable.antt =====
-- NachOS-4.0/code/threads/stable.cc: class `STable`, the named semaphores of the system calls.
--
-- A name is the list of its characters, so that `strcmp` compares two lists and `strcpy` copies
-- one. `none` is a failed ASSERT of the bitmap or a read through a NULL slot. The return value -1
-- is `none` inside.
pub mod Names
pub mod Creation
use hcmus_csc10007_operating.Common.{
  ℕ, zero, suc, Bool, true, false, ◌&&◌, Option, none, some, List, [], ◌∷◌, ◌==◌, if◌then◌else◌,
  assign_at, ◌>>=◌,
}
use hcmus_csc10007_operating.Bitmap.{Bitmap, test, new_bitmap, find_and_set}
use hcmus_csc10007_operating.Threads.{SemaphoreId, Kernel, set_semaphore}
use hcmus_csc10007_operating.Threads.Synch.{new_semaphore, semaphore_p, semaphore_v}

abbrev pub Name : Type 0
Name = List ℕ

-- Whether `strcmp` is zero.
abbrev pub strcmp_eq : Name → Name → Bool
strcmp_eq [] [] = true
strcmp_eq [] (y ∷ ys) = false
strcmp_eq (x ∷ xs) [] = false
strcmp_eq (x ∷ xs) (y ∷ ys) = x == y && strcmp_eq xs ys

abbrev pub max_semaphore : ℕ
max_semaphore = 10

-- `sem` stands for the address of the semaphore.
pub record Sem : Type 0 where
  pub name : Name
  pub sem : SemaphoreId

pub record SemTable : Type 0 where
  pub bitmap : Bitmap
  pub slots : ℕ → Option Sem

-- STable::STable
unfoldable pub new_table : Option SemTable
new_table = do b ← new_bitmap max_semaphore; some (record { bitmap = b; slots = λ i. none })

-- The loop of `Create`, `Wait` and `Signal` from slot `i`, with `k` slots left.
unfoldable pub find_name_from : ℕ → ℕ → Name → SemTable → Option (Option ℕ)
find_name_from zero i name t = some none
find_name_from (suc k) i name t =
    let rest = find_name_from k (suc i) name t in
    elim (test i t.bitmap) [
      | none ↦ none
      | some false ↦ rest
      | some true ↦ elim (t.slots i) [
        | none ↦ none
        | some s ↦ if strcmp_eq name s.name then some (some i) else rest
      ]
    ]

unfoldable pub find_name : Name → SemTable → Option (Option ℕ)
find_name name t = find_name_from max_semaphore 0 name t

-- STable::Create, where `address` is where `new` puts the semaphore.
unfoldable pub create_sem :
    Name → ℕ → SemaphoreId → SemTable → Kernel → Option (Option ℕ × (SemTable × Kernel))
create_sem name value address t k = do
  there ← find_name name t
  elim there [
    | some _ ↦ some (none, (t, k))
    | none ↦ do
      (slot, b) ← find_and_set t.bitmap
      elim slot [
        | none ↦ some (none, (record t { bitmap = b }, k))
        | some i ↦ some (
          some i,
          (
            record {
              bitmap = b;
              slots = assign_at t.slots i (some (record { name = name; sem = address }));
            },
            set_semaphore k address (new_semaphore value),
          ),
        )
      ]
  ]

-- The semaphore that `Wait` and `Signal` act on: the inner `none` where they return -1.
unfoldable pub named_sem : Name → SemTable → Option (Option SemaphoreId)
named_sem name t = do
  there ← find_name name t
  elim there [
    | none ↦ some none
    | some i ↦ elim (t.slots i) [ none ↦ none | some s ↦ some (some s.sem) ]
  ]

-- STable::Wait: -1, or the `P` that the thread is then in.
unfoldable pub wait_sem : Name → SemTable → Kernel → Option (Option Bool × Kernel)
wait_sem name t k = do
  there ← named_sem name t
  elim there [
    | none ↦ some (none, k)
    | some s ↦ let (returned, k1) = semaphore_p s k in some (some returned, k1)
  ]

-- STable::Signal: true where it returns 1.
unfoldable pub signal_sem : Name → SemTable → Kernel → Option (Bool × Kernel)
signal_sem name t k = do
  there ← named_sem name t
  elim there [ none ↦ some (false, k) | some s ↦ some (true, semaphore_v s k) ]
