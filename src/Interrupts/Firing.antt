-- ===== src/Interrupts/Firing.antt =====
-- NachOS-4.0/code/machine/interrupt.cc: the loop of CheckIfDue ends with nothing due.
use hcmus_csc10007_operating.Common.{
  ℕ, zero, suc, ◌≤◌, ◌≡◌, ◌≢◌, refl, sym, ap, ◌∙◌, Bool, true, false, if◌then◌else◌, none, some,
  List, [], ◌∷◌, ◌>>=◌, length, arith, Bool-cases, inl, inr,
}
use mathlib.Core.Path.{subst}
use hcmus_csc10007_operating.Lists.Sorting.{Ordered}
use hcmus_csc10007_operating.Interrupts.{
  MachineStatus, settle, PendingInterrupt, pending_before, Request, Interrupts, yield_on_return,
  front_due, run_handler, fire, fire_due,
}
use hcmus_csc10007_operating.Interrupts.Pending.{
  List-cases, count_due, count_due-le-length, Ordered-Later, Runs, schedule_all_lem, Future, Later,
}

module _ {H D : Type 0} (call_back : H → MachineStatus → D → D × List (Request H) × Bool) (now : ℕ)
    (future : (h : H) (status : MachineStatus) (d : D) → Future now (call_back h status d).1) where
  run_handler_lem :
      (h : H) (s : Interrupts H D)
      → s.in_handler ≡ true
      → s.total_ticks ≡ now
      → Ordered pending_before s.pending
      → (t : Interrupts H D) × (run_handler call_back h s ≡ some t) × Runs s t
  unfolding run_handler yield_on_return
  run_handler_lem h s i at o =
      let r = call_back h s.status s.devices in
      let w =
        schedule_all_lem r.1 (record s { devices = r.0 })
          (subst (λ n. Future n r.1) (sym at) (future h s.status s.devices)) o in
      let v = w.2 in
      elim (Bool-cases r.2) [
        | inl y ↦ (
          record w.0 { yield_on_return = true },
          rw (w.1, y) (let j = v.handling ∙ i in ground arith),
          record {
            sorted = v.sorted;
            due = v.due;
            same_time = v.same_time;
            same_level = v.same_level;
            handling = v.handling;
            same_machine = v.same_machine;
          },
        )
        | inr y ↦ (
          w.0,
          rw (w.1, y) refl,
          record {
            sorted = v.sorted;
            due = v.due;
            same_time = v.same_time;
            same_level = v.same_level;
            handling = v.handling;
            same_machine = v.same_machine;
          },
        )
      ]

  -- The loop ends with fuel for each interrupt that is due.
  record Fired (s t : Interrupts H D) : Type 0 where
    pub sorted : Ordered pending_before t.pending
    pub done : front_due t.pending t.total_ticks ≡ false
    pub same_time : t.total_ticks ≡ s.total_ticks
    pub same_level : t.level ≡ s.level
    pub same_machine : t.machine ≡ s.machine

  fire_step :
      (f : ℕ) (s : Interrupts H D) (x : PendingInterrupt H) (rest : List (PendingInterrupt H))
      (t : Interrupts H D)
      → s.pending ≡ x ∷ rest
      → run_handler call_back x.call_on_interrupt (record s { pending = rest }) ≡ some t
      → fire call_back (suc f) s
        ≡ (if front_due t.pending t.total_ticks then fire call_back f t else some t)
  unfolding fire
  fire_step f s x rest t e h =
      ap
        (λ (p : List (PendingInterrupt H)). elim p [
          | [] ↦ none
          | x ∷ rest ↦
              (run_handler call_back x.call_on_interrupt (record s { pending = rest }) >>= λ t.
              if front_due t.pending t.total_ticks then fire call_back f t else some t)
        ])
        e
      ∙ rw h refl

  none_due :
      (now : ℕ) (p : List (PendingInterrupt H)) → front_due p now ≡ true → count_due now p ≢ 0
  none_due now [] d = cc
  none_due now (x ∷ xs) d = λ e. ground arith

  counted_lem :
      (s : Interrupts H D) (x : PendingInterrupt H) (rest : List (PendingInterrupt H))
      → s.pending ≡ x ∷ rest
      → front_due s.pending s.total_ticks ≡ true
      → suc (count_due s.total_ticks rest) ≡ count_due s.total_ticks s.pending
  counted_lem s x rest e d =
      let here = ap (λ (p : List (PendingInterrupt H)). front_due p s.total_ticks) (sym e) ∙ d in
      sym (
        ap (count_due s.total_ticks) e
        ∙ (let g : count_due s.total_ticks (x ∷ rest) ≡ suc (count_due s.total_ticks rest) =
              ground arith in
            g))

  fire_lem :
      (f : ℕ) (s : Interrupts H D)
      → s.in_handler ≡ true
      → s.total_ticks ≡ now
      → Ordered pending_before s.pending
      → front_due s.pending s.total_ticks ≡ true
      → count_due s.total_ticks s.pending ≤ f
      → (t : Interrupts H D) × (fire call_back f s ≡ some t) × Fired s t
  fire_lem zero s i at o d l = absurd (none_due s.total_ticks s.pending d (omega arith))
  fire_lem (suc f) s i at o d l = elim (List-cases s.pending) [
    | inl e ↦
        let d' = ap (λ (p : List (PendingInterrupt H)). front_due p s.total_ticks) (sym e) ∙ d in cc
    | inr q ↦
        let x = q.0 in
        let rest = q.1 in
        let o' = subst (Ordered pending_before) q.2 o in
        let w = run_handler_lem x.call_on_interrupt (record s { pending = rest }) i at o'.1 in
        let v = w.2 in
        let one = fire_step f s x rest w.0 q.2 w.1 in
        elim (Bool-cases (front_due w.0.pending w.0.total_ticks)) [
          | inl again ↦
              let counted : suc (count_due s.total_ticks rest) ≡ count_due s.total_ticks s.pending =
                counted_lem s x rest q.2 d in
              let r =
                fire_lem f w.0 (v.handling ∙ i) (v.same_time ∙ at) v.sorted again
                  (omega (arith, v.due)) in
              (
                r.0,
                one ∙ rw again r.1,
                record {
                  sorted = r.2.sorted;
                  done = r.2.done;
                  same_time = r.2.same_time ∙ v.same_time;
                  same_level = r.2.same_level ∙ v.same_level;
                  same_machine = r.2.same_machine ∙ v.same_machine;
                },
              )
          | inr last ↦ (
            w.0,
            one ∙ rw last refl,
            record {
              sorted = v.sorted;
              done = last;
              same_time = v.same_time;
              same_level = v.same_level;
              same_machine = v.same_machine;
            },
          )
        ]
  ]

  pub fire_due_lem :
      (s : Interrupts H D)
      → s.total_ticks ≡ now
      → Ordered pending_before s.pending
      → front_due s.pending s.total_ticks ≡ true
      → (t : Interrupts H D) × (fire_due call_back s ≡ some (t, true))
        × Ordered pending_before t.pending
        × Later t.total_ticks t.pending
        × (t.total_ticks ≡ s.total_ticks)
        × (t.level ≡ s.level)
        × (t.machine ≡ settle s.machine)
  fire_due_lem s at o d =
      let w =
        fire_lem (length s.pending) (record s { machine = settle s.machine; in_handler = true })
          refl at o d (count_due-le-length s.total_ticks s.pending) in
      (
        record w.0 { in_handler = false },
        rw w.1 refl,
        w.2.sorted,
        Ordered-Later w.0.total_ticks w.0.pending w.2.sorted w.2.done,
        w.2.same_time,
        w.2.same_level,
        w.2.same_machine,
      )
