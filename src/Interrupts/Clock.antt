-- ===== src/Interrupts/Clock.antt =====
-- NachOS-4.0/code/machine/interrupt.cc: CheckIfDue ends, with nothing overdue.
use hcmus_csc10007_operating.Common.{
  ℕ, not, ◌&&◌, ◌≡◌, refl, sym, ap, ◌∙◌, Bool, true, false, if◌then◌else◌, some, List, [], ◌∷◌,
  arith, Bool-cases, inl, inr,
}
use mathlib.Core.Path.{subst}
use hcmus_csc10007_operating.Lists.Sorting.{Ordered}
use hcmus_csc10007_operating.Interrupts.{
  int_lt, MachineStatus, settle, PendingInterrupt, pending_before, Request, Interrupts, is_off,
  front_due, advance_to, fire_due, check_if_due,
}
use hcmus_csc10007_operating.Interrupts.Firing.{fire_due_lem}
use hcmus_csc10007_operating.Interrupts.Pending.{List-cases, Ordered-Later, Future, Later}

-- The time after CheckIfDue: that of the first interrupt, if the clock may go on to it.
abbrev pub time_after : {H D : Type 0} → Bool → Interrupts H D → ℕ
time_after advance s = elim s.pending [
  | [] ↦ s.total_ticks
  | x ∷ rest ↦ if advance && int_lt s.total_ticks x.when then x.when else s.total_ticks
]

pub record Checked {H D : Type 0} (advance : Bool) (s : Interrupts H D) (r : Interrupts H D × Bool)
    : Type 0 where
  pub sorted : Ordered pending_before r.0.pending
  pub later : Later r.0.total_ticks r.0.pending
  pub time : r.0.total_ticks ≡ time_after advance s
  pub same_level : r.0.level ≡ s.level
  pub loads : r.0.machine ≡ (if r.1 then settle s.machine else s.machine)
  pub invoked : r.1 ≡ front_due s.pending (time_after advance s)

module _ {H D : Type 0} (call_back : H → MachineStatus → D → D × List (Request H) × Bool) where
  module _ (advance : Bool) (s : Interrupts H D) where
    check_empty :
        is_off s.level ≡ true → s.pending ≡ [] → check_if_due call_back advance s ≡ some (s, false)
    unfolding check_if_due
    check_empty h e = rw h (
        ap
          (λ (p : List (PendingInterrupt H)). elim p [
            | [] ↦ some (s, false)
            | x ∷ rest ↦
                (if int_lt s.total_ticks x.when
                  then (if advance
                      then fire_due call_back (advance_to call_back x.when s)
                      else some (s, false))
                  else fire_due call_back s)
          ])
          e)

    time_none : s.pending ≡ [] → time_after advance s ≡ s.total_ticks
    time_none e =
        ap
          (λ (p : List (PendingInterrupt H)). elim p [
            | [] ↦ s.total_ticks
            | x ∷ rest ↦ if advance && int_lt s.total_ticks x.when then x.when else s.total_ticks
          ])
          e

    module _ (x : PendingInterrupt H) (rest : List (PendingInterrupt H)) where
      check_front :
          is_off s.level ≡ true
          → s.pending ≡ x ∷ rest
          → check_if_due call_back advance s ≡ (
              if int_lt s.total_ticks x.when
              then (if advance
                  then fire_due call_back (advance_to call_back x.when s)
                  else some (s, false))
              else fire_due call_back s)
      unfolding check_if_due
      check_front h e = rw h (
          ap
            (λ (p : List (PendingInterrupt H)). elim p [
              | [] ↦ some (s, false)
              | x ∷ rest ↦
                  (if int_lt s.total_ticks x.when
                    then (if advance
                        then fire_due call_back (advance_to call_back x.when s)
                        else some (s, false))
                    else fire_due call_back s)
            ])
            e)

      time_front :
          s.pending ≡ x ∷ rest
          → time_after advance s
            ≡ (if advance && int_lt s.total_ticks x.when then x.when else s.total_ticks)
      time_front e =
          ap
            (λ (p : List (PendingInterrupt H)). elim p [
              | [] ↦ s.total_ticks
              | x ∷ rest ↦ if advance && int_lt s.total_ticks x.when then x.when else s.total_ticks
            ])
            e

      front_at :
          (now : ℕ) → s.pending ≡ x ∷ rest → front_due s.pending now ≡ not (int_lt now x.when)
      front_at now e = ap (λ (p : List (PendingInterrupt H)). front_due p now) e

      going_on :
          int_lt s.total_ticks x.when ≡ true
          → advance ≡ true
          → (if int_lt s.total_ticks x.when
              then (if advance
                  then fire_due call_back (advance_to call_back x.when s)
                  else some (s, false))
              else fire_due call_back s)
            ≡ fire_due call_back (advance_to call_back x.when s)
      going_on l a = rw (l, a) refl

      not_yet :
          int_lt s.total_ticks x.when ≡ true
          → advance ≡ false
          → (if int_lt s.total_ticks x.when
              then (if advance
                  then fire_due call_back (advance_to call_back x.when s)
                  else some (s, false))
              else fire_due call_back s)
            ≡ some (s, false)
      not_yet l a = rw (l, a) refl

      check_front-Checked :
          ((h : H) (status : MachineStatus) (d : D)
            → Future (time_after advance s) (call_back h status d).1)
          → is_off s.level ≡ true
          → Ordered pending_before s.pending
          → s.pending ≡ x ∷ rest
          → (r : Interrupts H D × Bool) × (check_if_due call_back advance s ≡ some r)
            × Checked advance s r
      check_front-Checked future h o e = elim (Bool-cases (int_lt s.total_ticks x.when)) [
        | inl l ↦ elim (Bool-cases advance) [
          | inl a ↦
              let now : time_after advance s ≡ x.when = time_front e ∙ rw (a, l) refl in
              let due : front_due s.pending x.when ≡ true = front_at x.when e ∙ ground arith in
              let w =
                fire_due_lem call_back (time_after advance s) future (advance_to call_back x.when s)
                  (sym now) o due in
              (
                (w.0, true),
                check_front h e ∙ going_on l a ∙ w.1,
                record {
                  sorted = w.2;
                  later = w.3;
                  time = w.4 ∙ sym now;
                  same_level = w.5;
                  loads = w.6;
                  invoked = sym (ap (front_due s.pending) now ∙ due);
                },
              )
          | inr a ↦
              let now : time_after advance s ≡ s.total_ticks = time_front e ∙ rw a refl in
              let due : front_due s.pending s.total_ticks ≡ false =
                front_at s.total_ticks e ∙ ground arith in
              (
                (s, false),
                check_front h e ∙ not_yet l a,
                record {
                  sorted = o;
                  later = Ordered-Later s.total_ticks s.pending o due;
                  time = sym now;
                  same_level = refl;
                  loads = refl;
                  invoked = sym (ap (front_due s.pending) now ∙ due);
                },
              )
        ]
        | inr l ↦
            let now : time_after advance s ≡ s.total_ticks = time_front e ∙ ground arith in
            let due : front_due s.pending s.total_ticks ≡ true =
              front_at s.total_ticks e ∙ ground arith in
            let w = fire_due_lem call_back (time_after advance s) future s (sym now) o due in
            (
              (w.0, true),
              check_front h e ∙ rw l w.1,
              record {
                sorted = w.2;
                later = w.3;
                time = w.4 ∙ sym now;
                same_level = w.5;
                loads = w.6;
                invoked = sym (ap (front_due s.pending) now ∙ due);
              },
            )
      ]

  -- With the interrupts off, the pending ones in order of time, and devices that at the time to which
  -- CheckIfDue brings the clock ask for interrupts in the future only, before tick 2 ^ 31: CheckIfDue ends within its fuel with no ASSERT failing, the pending interrupts
  -- are in order and all later than the clock; the clock has gone on to the first one where that was
  -- asked for and there was none to come at once, and not otherwise; it returns whether an interrupt
  -- was due, and has finished the machine's delayed load just then.
  pub check_if_due-Checked :
      (advance : Bool) (s : Interrupts H D)
      → ((h : H) (status : MachineStatus) (d : D)
          → Future (time_after advance s) (call_back h status d).1)
      → is_off s.level ≡ true
      → Ordered pending_before s.pending
      → (r : Interrupts H D × Bool) × (check_if_due call_back advance s ≡ some r)
        × Checked advance s r
  check_if_due-Checked advance s future h o = elim (List-cases s.pending) [
    | inl e ↦ (
      (s, false),
      check_empty advance s h e,
      record {
        sorted = o;
        later = subst (Later s.total_ticks) (sym e) tt;
        time = sym (time_none advance s e);
        same_level = refl;
        loads = refl;
        invoked =
            sym (ap (λ (p : List (PendingInterrupt H)). front_due p (time_after advance s)) e);
      },
    )
    | inr q ↦ check_front-Checked advance s q.0 q.1 future h o q.2
  ]
