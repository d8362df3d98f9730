-- ===== src/SystemCalls/Frame.antt =====
-- NachOS-4.0/code/userprog/exception.cc: the parts of a handler leave every register alone but R2, and
-- `IncreasePC` moves the program counters.
use hcmus_csc10007_operating.Common.{
  ℕ, zero, suc, ◌-◌, ◌%◌, ◌==◌, ltb, ◌≡◌, ◌≢◌, refl, ap, ◌∙◌, if◌then◌else◌, Bool, true, false,
  arith, Bool-cases, inl, inr, assign_at, leb,
}
use hcmus_csc10007_operating.Common.Word.{word_mod, add32, sign_bit}
use hcmus_csc10007_operating.Machine.State.{
  Machine, Outcome, done, trap, abort, M, ExceptionType, pc_reg, next_pc_reg, prev_pc_reg,
}
use hcmus_csc10007_operating.Machine.State
use hcmus_csc10007_operating.Machine.Memory.{read_mem, write_mem, char_value}
use hcmus_csc10007_operating.Machine.Memory.Registers.{
  Leaves, kept, trapped, aborted, read_mem-registers, write_mem-registers,
}
use hcmus_csc10007_operating.SystemCalls.State.{
  Buffer, System, Reply, returned, halted, finished, waiting, fault, S, ◌>>=◌, halting,
  handle_error, on_machine, get_reg, put_reg,
}
use hcmus_csc10007_operating.SystemCalls.Copying.{
  copy_from_user, user2system, copy_to_user, system2user,
}
use hcmus_csc10007_operating.SystemCalls.Copying
use hcmus_csc10007_operating.SystemCalls.Calls.{move_on, from_user, to_user}

-- Where a reply returns, its state has the property.
abbrev pub Ends : {K A : Type 0} → (System K → Type 0) → Reply K A → Type 0
Ends P (returned a t) = P t
Ends P (halted t) = Unit {0}
Ends P (finished t) = Unit {0}
Ends P waiting = Unit {0}
Ends P fault = Unit {0}

-- Every register but R2 is as it was.
abbrev pub Kept : {K : Type 0} → System K → System K → Type 0
Kept s t = (r : ℕ) → r ≢ 2 → t.machine.registers r ≡ s.machine.registers r

-- The program counters have moved on by one instruction, and every other register but R2 is as it
-- was.
pub record Advanced {K : Type 0} (s t : System K) : Type 0 where
  pub pc : t.machine.registers pc_reg ≡ add32 (s.machine.registers pc_reg) 4
  pub next_pc : t.machine.registers next_pc_reg ≡ add32 (add32 (s.machine.registers pc_reg) 4) 4
  pub prev_pc : t.machine.registers prev_pc_reg ≡ s.machine.registers pc_reg
  pub others :
      (r : ℕ)
      → r ≢ 2
      → r ≢ pc_reg
      → r ≢ next_pc_reg
      → r ≢ prev_pc_reg
      → t.machine.registers r ≡ s.machine.registers r

pub bind :
    {K A B : Type 0} (P Q : System K → Type 0) (m : S K A) (f : A → S K B) (s : System K)
    → Ends P (m s)
    → ((a : A) (t : System K) → P t → Ends Q (f a t))
    → Ends Q ((m >>= f) s)
bind {K} {A} {B} P Q m f s h k = go (m s) h
  where
    go :
        (r : Reply K A)
        → Ends P r
        → Ends Q (elim r [
          | returned a t ↦ f a t
          | halted t ↦ halted t
          | finished t ↦ finished t
          | waiting ↦ waiting
          | fault ↦ fault
        ])
    go (returned a t) h = k a t h
    go (halted t) h = tt
    go (finished t) h = tt
    go waiting h = tt
    go fault h = tt

pub handle_error_lem :
    {K : Type 0} (A : Type 0) (P : System K → Type 0) (which : ExceptionType) (s : System K)
    → Ends P (handle_error {A = A} which s)
unfolding handle_error
handle_error_lem {K} A P which s = go (halting which)
  where
    go : (b : Bool) → Ends {A = A} P (elim b [ true ↦ halted s | false ↦ fault ])
    go true = tt
    go false = tt

-- A call of the machine that leaves the registers alone.
pub on_machine_lem :
    {K A : Type 0} (s : System K) (t : System K) (act : M A)
    → Kept s t
    → Leaves t.machine (act t.machine)
    → Ends (Kept s) (on_machine act t)
on_machine_lem {K} {A} s t act h l = go (act t.machine) l
  where
    go :
        (o : Outcome A)
        → Leaves t.machine o
        → Ends (Kept s) (elim o [
          | done a m ↦ returned a (record t { machine = m })
          | trap which m ↦ handle_error which (record t { machine = m })
          | abort ↦ fault
        ])
    go (done a m) (kept _ _ e) = λ r ne. ap (λ (f : ℕ → ℕ). f r) e ∙ h r ne
    go (trap which m) l = handle_error_lem A (Kept s) which (record t { machine = m })
    go abort l = tt

read_register-Leaves : (num : ℕ) (m : Machine) → Leaves m (State.read_register num m)
unfolding State.read_register
read_register-Leaves num m = elim (Bool-cases (ltb num State.num_total_regs)) [
  | inl e ↦ rw e (kept _ _ refl)
  | inr e ↦ rw e aborted
]

Leaves-trans :
    {A : Type 0} (m m' : Machine) (o : Outcome A)
    → m'.registers ≡ m.registers
    → Leaves m' o
    → Leaves m o
Leaves-trans m m' (done a _) e (kept _ m'' k) = kept a m'' (k ∙ e)
Leaves-trans m m' (trap _ _) e (trapped which m'' k) = trapped which m'' k
Leaves-trans m m' abort e l = aborted

-- The registers of a run of the machine in two parts.
Leaves-bind :
    {A B : Type 0} (m : Machine) (act : M A) (f : A → M B)
    → Leaves m (act m)
    → ((a : A) (m' : Machine) → m'.registers ≡ m.registers → Leaves m' (f a m'))
    → Leaves m ((State.◌>>=◌) act f m)
Leaves-bind {A} {B} m act f h k = go (act m) h
  where
    go :
        (o : Outcome A)
        → Leaves m o
        → Leaves m (elim o [ done a s' ↦ f a s' | trap e s' ↦ trap e s' | abort ↦ abort ])
    go (done a m') (kept _ _ e) = Leaves-trans m m' (f a m') e (k a m' e)
    go (trap which m') (trapped _ _ e) = trapped which m' e
    go abort l = aborted

if_machine :
    {A : Type 0} (m : Machine) (b : Bool) (x y : M A)
    → Leaves m (x m)
    → Leaves m (y m)
    → Leaves m ((if b then x else y) m)
if_machine m true x y h k = h
if_machine m false x y h k = k

copy_from_user-Leaves :
    (k i virt_addr : ℕ) (buf : Buffer) (m : Machine) → Leaves m (copy_from_user k i virt_addr buf m)
unfolding copy_from_user
copy_from_user-Leaves zero i virt_addr buf m = kept _ _ refl
copy_from_user-Leaves (suc k) i virt_addr buf m =
    Leaves-bind m (read_mem (add32 virt_addr i) 1) _ (read_mem-registers (add32 virt_addr i) 1 m)
      (λ c m' e.
        let buf' : Buffer = assign_at buf i (c % 256) in
        if_machine m' (c == 0) (done buf') (copy_from_user k (suc i) virt_addr buf') (kept _ _ refl)
          (copy_from_user-Leaves k (suc i) virt_addr buf' m'))

copy_to_user-Leaves :
    (k i virt_addr : ℕ) (buffer : Buffer) (m : Machine)
    → Leaves m (copy_to_user k i virt_addr buffer m)
unfolding copy_to_user
copy_to_user-Leaves zero i virt_addr buffer m = kept _ _ refl
copy_to_user-Leaves (suc k) i virt_addr buffer m =
    Leaves-bind m (write_mem (add32 virt_addr i) 1 (char_value (buffer i))) _
      (write_mem-registers (add32 virt_addr i) 1 (char_value (buffer i)) m)
      (λ _ m' e.
        if_machine m' (buffer i == 0) (done (suc i)) (copy_to_user k (suc i) virt_addr buffer)
          (kept _ _ refl) (copy_to_user-Leaves k (suc i) virt_addr buffer m'))

user2system-Leaves : (virt_addr limit : ℕ) (m : Machine) → Leaves m (user2system virt_addr limit m)
unfolding user2system
user2system-Leaves virt_addr limit m =
    if_machine m (limit == word_mod - 1) (done (λ _. 0)) _ (kept _ _ refl) (
      if_machine m (leb (sign_bit - 1) limit) (λ _. abort) _ aborted
        (copy_from_user-Leaves limit 0 virt_addr (λ _. 0) m))

system2user-Leaves :
    (virt_addr len : ℕ) (buffer : Buffer) (m : Machine)
    → Leaves m (system2user virt_addr len buffer m)
unfolding system2user
system2user-Leaves virt_addr len buffer m =
    if_machine m (leb sign_bit len) (done (word_mod - 1)) _ (kept _ _ refl)
      (copy_to_user-Leaves len 0 virt_addr buffer m)

module _ {K : Type 0} (s t : System K) (h : Kept s t) where
  pub read_register_lem : (num : ℕ) → Ends (Kept s) (get_reg num t)
  read_register_lem num =
      on_machine_lem s t (State.read_register num) h (read_register-Leaves num t.machine)

  pub from_user_lem : (virt_addr limit : ℕ) → Ends (Kept s) (from_user virt_addr limit t)
  from_user_lem virt_addr limit =
      on_machine_lem s t (user2system virt_addr limit) h
        (user2system-Leaves virt_addr limit t.machine)

  pub to_user_lem :
      (virt_addr len : ℕ) (buffer : Buffer) → Ends (Kept s) (to_user virt_addr len buffer t)
  to_user_lem virt_addr len buffer =
      on_machine_lem s t (system2user virt_addr len buffer) h
        (system2user-Leaves virt_addr len buffer t.machine)

  pub write_register_lem : (value : ℕ) → Ends (Kept s) (put_reg 2 value t)
  unfolding State.write_register
  write_register_lem value = λ r ne. ground (arith, h r ne)

  pub increase_pc_lem : Ends (Advanced s) (move_on t)
  unfolding Copying.increase_pc State.read_register State.write_register
  increase_pc_lem = record {
    pc = ground (arith, h pc_reg);
    next_pc = ground (arith, h pc_reg);
    prev_pc = ground (arith, h pc_reg);
    others = λ r a b c d. ground (arith, h r a);
  }
