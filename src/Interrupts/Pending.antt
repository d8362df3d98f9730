-- ===== src/Interrupts/Pending.antt =====
-- NachOS-4.0/code/machine/interrupt.cc: the order of the pending interrupts, and how many are due.
use hcmus_csc10007_operating.Common.{
  ℕ, suc, ◌+◌, ◌<◌, ◌≤◌, ◌≡◌, ◌⊎◌, refl, ◌∙◌, true, false, if◌then◌else◌, some, List, [], ◌∷◌,
  length, arith, inl, inr,
}
use hcmus_csc10007_operating.Common.Word.{sign_bit, add32}
use hcmus_csc10007_operating.Lists.Sorting.{
  insert_before, NoneBefore, Ordered, IsOrder, Ordered-insert,
}
use hcmus_csc10007_operating.Interrupts.{
  int_lt, PendingInterrupt, pending_before, Request, Interrupts, schedule, schedule_all, front_due,
}

pub pending_before-IsOrder : {H : Type 0} → IsOrder {A = PendingInterrupt H} pending_before
unfolding pending_before
pending_before-IsOrder = record { asym = λ x y h. ground arith; trans = λ x y z h k. ground arith }

pub List-cases : {A : Type 0} (xs : List A) → (xs ≡ []) ⊎ ((x : A) × (r : List A) × (xs ≡ x ∷ r))
List-cases [] = inl refl
List-cases (x ∷ xs) = inr (x, xs, refl)

-- The devices ask at this time for interrupts in the future only, and before 2 ^ 31.
abbrev pub Future : {H : Type 0} → ℕ → List (Request H) → Type 0
Future now [] = Unit
Future now (r ∷ rs) = (0 < r.from_now) × (now + r.from_now < sign_bit) × Future now rs

-- Every interrupt of the list comes after the time.
abbrev pub Later : {H : Type 0} → ℕ → List (PendingInterrupt H) → Type 0
Later now [] = Unit
Later now (x ∷ xs) = (int_lt now x.when ≡ true) × Later now xs

abbrev pub count_due : {H : Type 0} → ℕ → List (PendingInterrupt H) → ℕ
count_due now [] = 0
count_due now (x ∷ xs) = if int_lt now x.when then count_due now xs else suc (count_due now xs)

pub count_due-le-length :
    {H : Type 0} (now : ℕ) (xs : List (PendingInterrupt H)) → count_due now xs ≤ length xs
count_due-le-length now [] = omega arith
count_due-le-length now (x ∷ xs) = ground (arith, count_due-le-length now xs)

count_due-insert :
    {H : Type 0} (now : ℕ) (x : PendingInterrupt H) (xs : List (PendingInterrupt H))
    → int_lt now x.when ≡ true
    → count_due now (insert_before pending_before x xs) ≡ count_due now xs
unfolding pending_before
count_due-insert now x [] h = ground arith
count_due-insert now x (y ∷ ys) h = ground (arith, count_due-insert now x ys)

NoneBefore-Later :
    {H : Type 0} (now : ℕ) (x : PendingInterrupt H) (xs : List (PendingInterrupt H))
    → int_lt now x.when ≡ true
    → NoneBefore pending_before x xs
    → Later now xs
unfolding pending_before
NoneBefore-Later now x [] h k = tt
NoneBefore-Later now x (y ∷ ys) h k = (ground (arith, k.0), NoneBefore-Later now x ys h k.1)

pub Ordered-Later :
    {H : Type 0} (now : ℕ) (xs : List (PendingInterrupt H))
    → Ordered pending_before xs
    → front_due xs now ≡ false
    → Later now xs
Ordered-Later now [] o h = tt
Ordered-Later now (x ∷ xs) o h =
    let l : int_lt now x.when ≡ true = ground arith in (l, NoneBefore-Later now x xs l o.0)

-- What the handlers of devices leave: the clock, the level, the machine and the interrupts
-- that are due.
pub record Runs {H D : Type 0} (s t : Interrupts H D) : Type 0 where
  pub sorted : Ordered pending_before t.pending
  pub due : count_due t.total_ticks t.pending ≡ count_due s.total_ticks s.pending
  pub same_time : t.total_ticks ≡ s.total_ticks
  pub same_level : t.level ≡ s.level
  pub handling : t.in_handler ≡ s.in_handler
  pub same_machine : t.machine ≡ s.machine

pub schedule_all_lem :
    {H D : Type 0} (rs : List (Request H)) (s : Interrupts H D)
    → Future s.total_ticks rs
    → Ordered pending_before s.pending
    → (t : Interrupts H D) × (schedule_all rs s ≡ some t) × Runs s t
unfolding schedule_all schedule
schedule_all_lem [] s f o = (
  s,
  refl,
  record {
    sorted = o;
    due = refl;
    same_time = refl;
    same_level = refl;
    handling = refl;
    same_machine = refl;
  },
)
schedule_all_lem {H} {D} (r ∷ rs) s f o =
    let x : PendingInterrupt H = record {
      call_on_interrupt = r.to_call;
      when = add32 s.total_ticks r.from_now;
      type = r.type;
    } in
    let next : Interrupts H D = record s { pending = insert_before pending_before x s.pending } in
    let w = schedule_all_lem rs next f.2 (Ordered-insert pending_before-IsOrder x s.pending o) in
    let positive : int_lt 0 r.from_now ≡ true = ground (arith, f.0, f.1) in
    let after : int_lt s.total_ticks (add32 s.total_ticks r.from_now) ≡ true =
      ground (arith, f.0, f.1) in
    (
      w.0,
      rw positive w.1,
      record {
        sorted = w.2.sorted;
        due = w.2.due ∙ count_due-insert s.total_ticks x s.pending after;
        same_time = w.2.same_time;
        same_level = w.2.same_level;
        handling = w.2.handling;
        same_machine = w.2.same_machine;
      },
    )
