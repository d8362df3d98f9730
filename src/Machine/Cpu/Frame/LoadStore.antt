-- ===== src/Machine/Cpu/Frame/LoadStore.antt =====
-- The load and store cases keep the program counters and the load registers
-- (NachOS-4.0/code/machine/mipssim.cc).
use hcmus_csc10007_operating.Common.{ℕ, ◌<◌, Bool, bit_and}
use hcmus_csc10007_operating.Common.Word.{truthy}
use hcmus_csc10007_operating.Machine.State.{Machine}
use hcmus_csc10007_operating.Machine.Decode.{Instruction}
use hcmus_csc10007_operating.Machine.Memory.Registers.{read_mem-registers, write_mem-registers}
use hcmus_csc10007_operating.Machine.Cpu.Locals.{Effects}
use hcmus_csc10007_operating.Machine.Cpu.Frame.Rules.{
  Framed, runs, raise-Framed, load_later-Framed, if-Framed, bind-Framed, Framed-trans,
}
use hcmus_csc10007_operating.Machine.Cpu.LoadStore.{
  effective, exec_lb, exec_lh, exec_lw, exec_lwl, exec_lwr, exec_store, exec_swl, exec_swr,
}

module _ (i : Instruction) (p : Effects) (m : Machine) (rt : i.rt < 32)
    (n : p.next_load_reg < 32) where
  pub lb-Framed : (sign : Bool) → Framed m (exec_lb sign i p m)
  unfolding exec_lb
  lb-Framed sign =
      bind-Framed m _ (read_mem-registers _ 1 m) (λ a m' s. load_later-Framed i.rt _ p m m' rt s)

  pub lh-Framed : (sign : Bool) → Framed m (exec_lh sign i p m)
  unfolding exec_lh
  lh-Framed sign =
      if-Framed m (truthy (bit_and (effective i m) 0x1)) (raise-Framed _ _ m m) (
        bind-Framed m _ (read_mem-registers _ 2 m) (λ a m' s. load_later-Framed i.rt _ p m m' rt s))

  pub lw-Framed : Framed m (exec_lw i p m)
  unfolding exec_lw
  lw-Framed =
      if-Framed m (truthy (bit_and (effective i m) 0x3)) (raise-Framed _ _ m m) (
        bind-Framed m _ (read_mem-registers _ 4 m) (λ a m' s. load_later-Framed i.rt _ p m m' rt s))

  pub lwl-Framed : Framed m (exec_lwl i p m)
  unfolding exec_lwl
  lwl-Framed =
      bind-Framed m _ (read_mem-registers _ 4 m) (λ a m' s. load_later-Framed i.rt _ p m m' rt s)

  pub lwr-Framed : Framed m (exec_lwr i p m)
  unfolding exec_lwr
  lwr-Framed =
      bind-Framed m _ (read_mem-registers _ 4 m) (λ a m' s. load_later-Framed i.rt _ p m m' rt s)

  pub store-Framed : (size : ℕ) → Framed m (exec_store size i p m)
  unfolding exec_store
  store-Framed size = bind-Framed m _ (write_mem-registers _ size _ m) (λ a m' s. runs p m' s n)

  pub swl-Framed : Framed m (exec_swl i p m)
  unfolding exec_swl
  swl-Framed = bind-Framed m _ (read_mem-registers _ 4 m) λ a m' s.
      Framed-trans m m' s
        (bind-Framed m' _ (write_mem-registers _ 4 _ m') (λ b m2 t. runs p m2 t n))

  pub swr-Framed : Framed m (exec_swr i p m)
  unfolding exec_swr
  swr-Framed = bind-Framed m _ (read_mem-registers _ 4 m) λ a m' s.
      Framed-trans m m' s
        (bind-Framed m' _ (write_mem-registers _ 4 _ m') (λ b m2 t. runs p m2 t n))
