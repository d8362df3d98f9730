-- ===== src/Interrupts.antt =====
-- NachOS-4.0/code/machine/interrupt.cc: the simulated interrupts and the clock.
--
-- The list of pending interrupts is the mathematical list that a SortedList holds. What a device does
-- when its interrupt comes is an argument: from the status and the devices, their new state, the
-- interrupts that it schedules and whether it asks for a context switch; so is the switch. `none` is a failed ASSERT or, in the
-- loop of CheckIfDue, the end of the fuel, which is the number of interrupts pending before it. Times
-- and ticks are the 32-bit patterns of the source's `int`s, which wrap around.
pub mod Pending
pub mod Firing
pub mod Clock
use hcmus_csc10007_operating.Common.{
  ℕ, zero, suc, ◌+◌, ◌%◌, ltb, ◌&&◌, ◌||◌, not, if◌then◌else◌, Bool, true, false, Option, none,
  some, List, [], ◌∷◌, ◌>>=◌, length,
}
use hcmus_csc10007_operating.Common.Word.{word_mod, sign_bit, add32, sub32}
use hcmus_csc10007_operating.Lists.Sorting.{insert_before}
use hcmus_csc10007_operating.Machine.State.{Machine, delayed_load}

pub data IntStatus : Type 0 where
  int_off int_on : IntStatus

pub data MachineStatus : Type 0 where
  idle_mode system_mode user_mode : MachineStatus

pub data IntType : Type 0 where
  timer_int disk_int console_write_int console_read_int : IntType
  network_send_int network_recv_int : IntType

pub record PendingInterrupt (H : Type 0) : Type 0 where
  pub call_on_interrupt : H
  pub when : ℕ
  pub type : IntType

-- `a < b` of the `int`s with these patterns.
abbrev pub int_lt : ℕ → ℕ → Bool
int_lt a b = ltb ((a + sign_bit) % word_mod) ((b + sign_bit) % word_mod)

-- PendingCompare(x, y) < 0.
unfoldable pub pending_before : {H : Type 0} → PendingInterrupt H → PendingInterrupt H → Bool
pending_before x y = int_lt x.when y.when

-- The arguments of a call of Schedule.
pub record Request (H : Type 0) : Type 0 where
  pub to_call : H
  pub from_now : ℕ
  pub type : IntType

-- The state of the interrupts, the statistics that they keep, the devices, and the machine, once the
-- kernel has made it.
pub record Interrupts (H D : Type 0) : Type 0 where
  pub level : IntStatus
  pub pending : List (PendingInterrupt H)
  pub in_handler : Bool
  pub yield_on_return : Bool
  pub status : MachineStatus
  pub total_ticks : ℕ
  pub idle_ticks : ℕ
  pub system_ticks : ℕ
  pub user_ticks : ℕ
  pub devices : D
  pub machine : Option Machine

abbrev pub is_off : IntStatus → Bool
is_off int_off = true
is_off int_on = false

abbrev pub user_tick : ℕ
user_tick = 1

abbrev pub system_tick : ℕ
system_tick = 10

-- Interrupt::Interrupt.
unfoldable pub new_interrupts : {H D : Type 0} → D → Interrupts H D
new_interrupts d = record {
  level = int_off;
  pending = [];
  in_handler = false;
  yield_on_return = false;
  status = system_mode;
  total_ticks = 0;
  idle_ticks = 0;
  system_ticks = 0;
  user_ticks = 0;
  devices = d;
  machine = none;
}

unfoldable pub change_level : {H D : Type 0} → IntStatus → Interrupts H D → Interrupts H D
change_level now s = record s { level = now }

unfoldable pub yield_on_return : {H D : Type 0} → Interrupts H D → Option (Interrupts H D)
yield_on_return s = if s.in_handler then some (record s { yield_on_return = true }) else none

unfoldable pub schedule :
    {H D : Type 0} → H → ℕ → IntType → Interrupts H D → Option (Interrupts H D)
unfolding pending_before
schedule to_call from_now type s =
    if int_lt 0 from_now
    then some (record s {
      pending =
          insert_before pending_before
            (record {
              call_on_interrupt = to_call;
              when = add32 s.total_ticks from_now;
              type = type;
            })
            s.pending;
    })
    else none

-- The calls of Schedule that a device makes.
unfoldable pub schedule_all :
    {H D : Type 0} → List (Request H) → Interrupts H D → Option (Interrupts H D)
schedule_all [] s = some s
schedule_all (r ∷ rs) s = do t ← schedule r.to_call r.from_now r.type s; schedule_all rs t

-- Whether the first pending interrupt is due.
abbrev pub front_due : {H : Type 0} → List (PendingInterrupt H) → ℕ → Bool
front_due [] now = false
front_due (x ∷ xs) now = not (int_lt now x.when)

-- `system_tick` or `user_tick` more.
unfoldable pub advance_time : {H D : Type 0} → MachineStatus → Interrupts H D → Interrupts H D
advance_time system_mode s = record s {
  total_ticks = add32 s.total_ticks system_tick;
  system_ticks = add32 s.system_ticks system_tick;
}
advance_time _ s = record s {
  total_ticks = add32 s.total_ticks user_tick;
  user_ticks = add32 s.user_ticks user_tick;
}

-- `DelayedLoad(0, 0)` of the machine, if there is one.
abbrev pub settle : Option Machine → Option Machine
settle none = none
settle (some m) = some (delayed_load 0 0 m)

module _ {H D : Type 0} (call_back : H → MachineStatus → D → D × List (Request H) × Bool) where
  -- `next->callOnInterrupt->CallBack()`.
  unfoldable pub run_handler : H → Interrupts H D → Option (Interrupts H D)
  run_handler h s =
      let r = call_back h s.status s.devices in
      do
        t ← schedule_all r.1 (record s { devices = r.0 })
        (if r.2 then yield_on_return t else some t)

  -- The loop of CheckIfDue.
  unfoldable pub fire : ℕ → Interrupts H D → Option (Interrupts H D)
  fire zero s = none
  fire (suc f) s = elim s.pending [
    | [] ↦ none
    | x ∷ rest ↦ do
      t ← run_handler x.call_on_interrupt (record s { pending = rest })
      let again = fire f t
      (if front_due t.pending t.total_ticks then again else some t)
  ]

  -- The clock is advanced to the first pending interrupt.
  abbrev pub advance_to : ℕ → Interrupts H D → Interrupts H D
  advance_to w s = record s {
    idle_ticks = add32 s.idle_ticks (sub32 w s.total_ticks);
    total_ticks = w;
  }

  -- What follows once an interrupt is due.
  abbrev pub fire_due : Interrupts H D → Option (Interrupts H D × Bool)
  fire_due s = do
    t ← fire (length s.pending) (record s { machine = settle s.machine; in_handler = true })
    some (record t { in_handler = false }, true)

  unfoldable pub check_if_due : Bool → Interrupts H D → Option (Interrupts H D × Bool)
  unfolding fire run_handler
  check_if_due advance_clock s =
      if is_off s.level
      then elim s.pending [
        | [] ↦ some (s, false)
        | x ∷ rest ↦
            (if int_lt s.total_ticks x.when
              then (if advance_clock then fire_due (advance_to x.when s) else some (s, false))
              else fire_due s)
      ]
      else none

  module _ (yield : Interrupts H D → Option (Interrupts H D)) where
    unfoldable pub one_tick : Interrupts H D → Option (Interrupts H D)
    one_tick s =
        let old_status = s.status in
        do
          r ← check_if_due false (change_level int_off (advance_time s.status s))
          let t = change_level int_on r.0
          (if t.yield_on_return
              then (do
                u ← yield (record t { yield_on_return = false; status = system_mode })
                some (record u { status = old_status }))
              else some t)

    unfoldable pub set_level : IntStatus → Interrupts H D → Option (Interrupts H D × IntStatus)
    set_level now s =
        if is_off now || not s.in_handler
        then (do
          t ←
              (if not (is_off now) && is_off s.level
                then one_tick (change_level now s)
                else some (change_level now s))
          some (t, s.level))
        else none

    -- Idle: whether there is now something to run; otherwise the machine halts.
    unfoldable pub idle : Interrupts H D → Option (Interrupts H D × Bool)
    idle s = do
      r ← check_if_due true (record s { status = idle_mode })
      some ((if r.1 then record r.0 { status = system_mode } else r.0), r.1)
