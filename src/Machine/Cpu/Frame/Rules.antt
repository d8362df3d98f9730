-- ===== src/Machine/Cpu/Frame/Rules.antt =====
-- Rules for the outcome of one case of the `switch` (NachOS-4.0/code/machine/mipssim.cc).
use hcmus_csc10007_operating.Common.{
  ℕ, ◌≤◌, ◌<◌, ◌≡◌, refl, ◌∙◌, ap, Bool, true, false, arith, if◌then◌else◌,
}
use hcmus_csc10007_operating.Machine.State.{
  ExceptionType, Machine, Outcome, done, trap, abort, M, set_register, raise_exception,
}
use hcmus_csc10007_operating.Machine.Memory.Registers.{Leaves, kept, trapped, aborted}
use hcmus_csc10007_operating.Machine.Cpu.Locals.{Effects, assign, go_to, load_later}

-- The program counters and the load registers, 34 and above, are alike.
abbrev pub SameHigh : Machine → Machine → Type 0
SameHigh m m' = (r : ℕ) → 34 ≤ r → m'.registers r ≡ m.registers r

pub data Framed (m : Machine) : Outcome Effects → Type 0 where
  runs : (p : Effects) (m' : Machine) → SameHigh m m' → p.next_load_reg < 32 → Framed m (done p m')
  traps : (e : ExceptionType) (m' : Machine) → m'.registers 0 ≡ 0 → Framed m (trap e m')
  aborts : Framed m abort

pub SameHigh-set :
    (m m' : Machine) (r v : ℕ) → r < 34 → SameHigh m m' → SameHigh m (set_register m' r v)
SameHigh-set m m' r v h s q k = ground (arith, s q k)

pub SameHigh-refl : (m : Machine) → SameHigh m m
SameHigh-refl m r h = refl

pub raise-Framed : (e : ExceptionType) (v : ℕ) (m m' : Machine) → Framed m (raise_exception e v m')
unfolding raise_exception
raise-Framed e v m m' = traps e _ refl

pub assign-Framed :
    (r v : ℕ) (p : Effects) (m m' : Machine)
    → r < 34
    → p.next_load_reg < 32
    → SameHigh m m'
    → Framed m (assign r v p m')
unfolding assign
assign-Framed r v p m m' h n s = runs p _ (SameHigh-set m m' r v h s) n

pub go_to-Framed :
    (t : ℕ) (p : Effects) (m m' : Machine)
    → p.next_load_reg < 32
    → SameHigh m m'
    → Framed m (go_to t p m')
unfolding go_to
go_to-Framed t p m m' n s = runs _ m' s n

pub load_later-Framed :
    (r v : ℕ) (p : Effects) (m m' : Machine)
    → r < 32
    → SameHigh m m'
    → Framed m (load_later r v p m')
unfolding load_later
load_later-Framed r v p m m' h s = runs _ m' s h

pub if-Framed :
    (m : Machine) (b : Bool) {x y : Outcome Effects}
    → Framed m x
    → Framed m y
    → Framed m (if b then x else y)
if-Framed m true p q = p
if-Framed m false p q = q

-- After an access to memory.
pub bind-Framed :
    {A : Type 0} (m : Machine) (f : A → M Effects) {o : Outcome A}
    → Leaves m o
    → ((a : A) (m' : Machine) → SameHigh m m' → Framed m (f a m'))
    → Framed m (elim o [ done a s ↦ f a s | trap e s ↦ trap e s | abort ↦ abort ])
bind-Framed m f (kept a m' e) k = k a m' (λ r h. ap (λ (g : ℕ → ℕ). g r) e)
bind-Framed m f (trapped e m' z) k = traps e m' z
bind-Framed m f aborted k = aborts

pub Framed-trans : (m m' : Machine) {o : Outcome Effects} → SameHigh m m' → Framed m' o → Framed m o
Framed-trans m m' s (runs p m2 t n) = runs p m2 (λ r h. t r h ∙ s r h) n
Framed-trans m m' s (traps e m2 z) = traps e m2 z
Framed-trans m m' s aborts = aborts
