-- ===== src/Machine/Memory/Registers.antt =====
-- `ReadMem` and `WriteMem` leave the registers alone unless they raise an exception
-- (NachOS-4.0/code/machine/translate.cc, machine.cc).
use hcmus_csc10007_operating.Common.{
  ℕ, ◌≡◌, refl, arith, Bool, true, false, List, Option, none, some, if◌then◌else◌, ◌==◌,
}
use hcmus_csc10007_operating.Machine.State.{
  Machine, ExceptionType, TranslationEntry, Outcome, done, trap, abort, raise_exception,
}
use hcmus_csc10007_operating.Machine.Memory.{
  mark_entry, Translated, found, refused, assertion, Lookup, entry_at, missing, out_of_array,
  use_entry, resolve, translate_with, translate, load_bytes, store_bytes, read_mem, write_mem,
}

-- The registers of an outcome: unchanged, or with R0 cleared on the way to the handler.
pub data Leaves {A : Type 0} (m : Machine) : Outcome A → Type 0 where
  kept : (a : A) (m' : Machine) → m'.registers ≡ m.registers → Leaves m (done a m')
  trapped : (e : ExceptionType) (m' : Machine) → m'.registers 0 ≡ 0 → Leaves m (trap e m')
  aborted : Leaves m abort

pub raise_exception-Leaves :
    (A : Type 0) (e : ExceptionType) (v : ℕ) (m m0 : Machine)
    → Leaves m0 (raise_exception {A = A} e v m)
unfolding raise_exception
raise_exception-Leaves A e v m m0 = trapped e _ refl

-- A table is replaced, and nothing else.
abbrev Replaces : Machine → Machine → Type 0
Replaces m m' = (m'.registers ≡ m.registers) × (m'.main_memory ≡ m.main_memory)

resolve-Replaces :
    (offset size : ℕ) (w : Bool) (store : ℕ → TranslationEntry → Machine) (l : Lookup) (m : Machine)
    {p : ℕ} {m' : Machine}
    → ((i : ℕ) (e : TranslationEntry) → Replaces m (store i e))
    → resolve offset size w store l ≡ found p m'
    → Replaces m m'
unfolding resolve use_entry
resolve-Replaces offset size w store (entry_at i e) m keep h =
    ground (arith, keep i (mark_entry w e))
resolve-Replaces offset size w store (missing which) m keep h = cc
resolve-Replaces offset size w store out_of_array m keep h = cc

translate-Replaces :
    (addr size : ℕ) (w : Bool) (tlb table : Option (List TranslationEntry)) (m : Machine) (p : ℕ)
    (m' : Machine)
    → translate_with tlb table addr size w m ≡ found p m'
    → Replaces m m'
unfolding translate_with
translate-Replaces addr size w none (some t) m p m' h =
    resolve-Replaces _ size w _ _ m (λ i e. (refl, refl)) h
translate-Replaces addr size w (some t) none m p m' h =
    resolve-Replaces _ size w _ _ m (λ i e. (refl, refl)) h
translate-Replaces addr size w none none m p m' h = cc
translate-Replaces addr size w (some s) (some t) m p m' h = cc

pub translate_found-Replaces :
    (addr size : ℕ) (w : Bool) (m : Machine) (p : ℕ) (m' : Machine)
    → translate addr size w m ≡ found p m'
    → Replaces m m'
unfolding translate
translate_found-Replaces addr size w m p m' h =
    ground (arith, translate-Replaces addr size w m.tlb m.page_table m p m')

pub if-Leaves :
    (A : Type 0) (m : Machine) (b : Bool) {x y : Outcome A}
    → Leaves m x
    → Leaves m y
    → Leaves m (if b then x else y)
if-Leaves A m true p q = p
if-Leaves A m false p q = q

load-Leaves :
    (size p : ℕ) (m m' : Machine) → m'.registers ≡ m.registers → Leaves m (load_bytes size p m')
unfolding load_bytes
load-Leaves size p m m' e =
    if-Leaves _ m (size == 1) (kept _ _ e)
      (if-Leaves _ m (size == 2) (kept _ _ e) (if-Leaves _ m (size == 4) (kept _ _ e) aborted))

store-Leaves :
    (size p value : ℕ) (m m' : Machine)
    → m'.registers ≡ m.registers
    → Leaves m (store_bytes size p value m')
unfolding store_bytes
store-Leaves size p value m m' e =
    if-Leaves _ m (size == 1) (kept _ _ e)
      (if-Leaves _ m (size == 2) (kept _ _ e) (if-Leaves _ m (size == 4) (kept _ _ e) aborted))

pub read_mem-registers : (addr size : ℕ) (m : Machine) → Leaves m (read_mem addr size m)
unfolding read_mem
read_mem-registers addr size m = go (translate addr size false m) refl
  where
    go : (t : Translated) → translate addr size false m ≡ t → Leaves m (read_mem addr size m)
    go (found p m') e =
        rw (e, read_mem)
          (load-Leaves size p m m' (translate_found-Replaces addr size false m p m' e).0)
    go (refused which) e = rw (e, read_mem) (raise_exception-Leaves _ which addr m m)
    go assertion e = rw (e, read_mem) aborted

pub write_mem-registers :
    (addr size value : ℕ) (m : Machine) → Leaves m (write_mem addr size value m)
unfolding write_mem
write_mem-registers addr size value m = go (translate addr size true m) refl
  where
    go : (t : Translated) → translate addr size true m ≡ t → Leaves m (write_mem addr size value m)
    go (found p m') e =
        rw (e, write_mem)
          (store-Leaves size p value m m' (translate_found-Replaces addr size true m p m' e).0)
    go (refused which) e = rw (e, write_mem) (raise_exception-Leaves _ which addr m m)
    go assertion e = rw (e, write_mem) aborted
