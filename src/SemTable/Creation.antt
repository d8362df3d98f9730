-- ===== src/SemTable/Creation.antt =====
-- NachOS-4.0/code/threads/stable.cc: `Create`, and the `Wait` and `Signal` that follow it.
use hcmus_csc10007_operating.Common.{
  ℕ, ◌<◌, ◌≡◌, ◌≢◌, refl, sym, ap, ◌∙◌, true, false, Option, none, some, ◌==◌, assign_at, arith,
  Option-cases, inl, inr, ℕ_discrete,
}
use hcmus_csc10007_operating.Common.Search.{first, first_unique, first-none, first-some, first-miss}
use hcmus_csc10007_operating.Bitmap.{Bitmap, find_and_set}
use hcmus_csc10007_operating.Bitmap.Allocation.{Finds, found, full, find_and_set-Finds}
use hcmus_csc10007_operating.Threads.{SemaphoreId, Kernel, set_semaphore}
use hcmus_csc10007_operating.Threads.Synch.{new_semaphore, semaphore_v}
use hcmus_csc10007_operating.SemTable.{
  Name, strcmp_eq, max_semaphore, Sem, SemTable, find_name, create_sem, named_sem, signal_sem,
}
use hcmus_csc10007_operating.SemTable.Names.{
  strcmp_refl, is_some, has_name, Consistent, find_name_lem, Creates, exists, no_slot, created,
  with_name, with_name-Consistent,
}

-- On a consistent table `Create` does what it is to do; no ASSERT fails.
pub create_sem-Creates :
    (name : Name) (value : ℕ) (address : SemaphoreId) (t : SemTable) (k : Kernel)
    → Consistent t
    → Creates name value address t k (create_sem name value address t k)
unfolding create_sem with_name
create_sem-Creates name value address t k c =
    let n = c.size in
    let f = find_name_lem t name c in
    elim (Option-cases (first (λ j. has_name name (t.slots j)) max_semaphore 0)) [
      | inl z ↦
          let m = first-miss (λ j. has_name name (t.slots j)) max_semaphore z in
          go (find_name_lem t name c ∙ ap some z) m (find_and_set t.bitmap) refl
            (find_and_set-Finds t.bitmap c.valid)
      | inr (i, z) ↦
          let (l, h, _) = first-some (λ j. has_name name (t.slots j)) max_semaphore i z in
          let q : create_sem name value address t k ≡ some (none, (t, k)) =
            let g : find_name name t ≡ some (some i) = f ∙ ap some z in rw g refl in
          rw q (exists i l h)
    ]
  where
    go :
        find_name name t ≡ some none
        → ((j : ℕ) → j < max_semaphore → has_name name (t.slots j) ≡ false)
        → (o : Option (Option ℕ × Bitmap)) → find_and_set t.bitmap ≡ o
        → Finds t.bitmap o
        → Creates name value address t k (create_sem name value address t k)
    go e m _ q (found i b l free before w) =
        let n = c.size in
        let p : create_sem name value address t k
            ≡ some (
              some i,
              (with_name t c name address i b l w m, set_semaphore k address (new_semaphore value)),
            ) =
          rw e (rw q refl) in
        rw p (
          created i (with_name t c name address i b l w m) (omega arith)
            (c.filled i (omega arith) ∙ free) (λ j z. c.filled j (omega arith) ∙ before j z) m refl
            (with_name-Consistent t c name address i b l w m))
    go e m _ q (full h) =
        let n = c.size in
        let p : create_sem name value address t k ≡ some (none, (t, k)) = rw e (rw q refl) in
        rw p (no_slot (λ j z. c.filled j z ∙ h j (omega arith)))

-- A name in the table stands for the semaphore of its slot.
named_sem-hit :
    (t : SemTable) (name : Name) (i : ℕ) (s : Sem)
    → Consistent t
    → i < max_semaphore
    → t.slots i ≡ some s
    → strcmp_eq name s.name ≡ true
    → named_sem name t ≡ some (some s.sem)
unfolding named_sem
named_sem-hit t name i s c l e h =
    let here : has_name name (t.slots i) ≡ true = ap (has_name name) e ∙ h in
    let f : first (λ j. has_name name (t.slots j)) max_semaphore 0 ≡ some i =
      first_unique (λ j. has_name name (t.slots j)) max_semaphore i l here
        (λ j p q. c.different j i name p l q here) in
    let g : find_name name t ≡ some (some i) = find_name_lem t name c ∙ ap some f in
    rw g (rw e refl)

named_sem-miss :
    (t : SemTable) (name : Name)
    → Consistent t
    → ((j : ℕ) → j < max_semaphore → has_name name (t.slots j) ≡ false)
    → named_sem name t ≡ some none
unfolding named_sem
named_sem-miss t name c h =
    let f = first-none (λ j. has_name name (t.slots j)) max_semaphore h in
    let g : find_name name t ≡ some none = find_name_lem t name c ∙ ap some f in rw g refl

placed :
    (t t' : SemTable) (name : Name) (i : ℕ) (address : SemaphoreId)
    → t'.slots ≡ assign_at t.slots i (some (record { name = name; sem = address }))
    → t'.slots i ≡ some (record { name = name; sem = address })
placed t t' name i address e =
    let f : (i == i) ≡ true = ground arith in ap (λ (g : ℕ → Option Sem). g i) e ∙ (rw f refl)

signalled :
    (name : Name) (u : SemTable) (address : SemaphoreId) (j : Kernel)
    → named_sem name u ≡ some (some address)
    → signal_sem name u j ≡ some (true, semaphore_v address j)
unfolding signal_sem
signalled name u address j q = rw q refl

-- The table after `Create` finds what the table before it finds, where the name is another.
module _ (t t' : SemTable) (c : Consistent t) (c' : Consistent t') (name other : Name) (i : ℕ)
    (address : SemaphoreId) (l : i < max_semaphore) (empty : is_some (t.slots i) ≡ false)
    (e : t'.slots ≡ assign_at t.slots i (some (record { name = name; sem = address })))
    (n : strcmp_eq other name ≡ false) where
  kept : (j : ℕ) → j ≢ i → t'.slots j ≡ t.slots j
  kept j m =
      let f : (j == i) ≡ false = ground arith in ap (λ (g : ℕ → Option Sem). g j) e ∙ (rw f refl)

  empty_slot : (o : Option Sem) → is_some o ≡ false → has_name other o ≡ false
  empty_slot none h = refl
  empty_slot (some s) h = ground arith

  missed :
      ((j : ℕ) → j < max_semaphore → has_name other (t.slots j) ≡ false)
      → (j : ℕ) → j < max_semaphore
      → has_name other (t'.slots j) ≡ false
  missed h j p = elim (ℕ_discrete j i) [
    | yes q ↦
        ap (λ (x : ℕ). has_name other (t'.slots x)) q
        ∙ ap (has_name other) (placed t t' name i address e)
        ∙ n
    | no m ↦ ap (has_name other) (kept j m) ∙ h j p
  ]

  pub named_sem-other : named_sem other t' ≡ named_sem other t
  named_sem-other = elim (Option-cases (first (λ j. has_name other (t.slots j)) max_semaphore 0)) [
    | inl z ↦
        let h = first-miss (λ j. has_name other (t.slots j)) max_semaphore z in
        named_sem-miss t' other c' (missed h) ∙ sym (named_sem-miss t other c h)
    | inr (j, z) ↦
        let (p, h, _) = first-some (λ j. has_name other (t.slots j)) max_semaphore j z in
        go j p h (t.slots j) refl
  ]
    where
      go :
          (j : ℕ)
          → j < max_semaphore
          → has_name other (t.slots j) ≡ true
          → (o : Option Sem) → t.slots j ≡ o
          → named_sem other t' ≡ named_sem other t
      go j p h none q =
          let w : has_name other none ≡ true = ap (has_name other) (sym q) ∙ h in ground arith
      go j p h (some s) q =
          let w : strcmp_eq other s.name ≡ true = ap (has_name other) (sym q) ∙ h in
          let m : j ≢ i = λ r.
            let z = empty_slot (t.slots i) empty in
            let y : has_name other (t.slots i) ≡ true =
              ap (λ (x : ℕ). has_name other (t.slots x)) (sym r) ∙ h in
            ground arith in
          named_sem-hit t' other j s c' p (kept j m ∙ q) w ∙ sym (named_sem-hit t other j s c p q w)

-- Where `Create` on a consistent table returns a slot, the table stays consistent, `Signal` of the
-- name returns 1 and is `V` on the new semaphore, and any other name means what it meant.
pub create_sem-signal_sem :
    (name : Name) (value : ℕ) (address : SemaphoreId) (t t' : SemTable) (k k' : Kernel) (i : ℕ)
    → Consistent t
    → create_sem name value address t k ≡ some (some i, (t', k'))
    → Consistent t'
      × ((j : Kernel) → signal_sem name t' j ≡ some (true, semaphore_v address j))
      × ((other : Name) → strcmp_eq other name ≡ false → named_sem other t' ≡ named_sem other t)
create_sem-signal_sem name value address t t' k k' i c e =
    go _ e (create_sem-Creates name value address t k c)
  where
    go :
        (o : Option (Option ℕ × (SemTable × Kernel)))
        → o ≡ some (some i, (t', k'))
        → Creates name value address t k o
        → Consistent t'
          × ((j : Kernel) → signal_sem name t' j ≡ some (true, semaphore_v address j))
          × ((other : Name) → strcmp_eq other name ≡ false → named_sem other t' ≡ named_sem other t)
    go _ q (exists x l h) = ground arith
    go _ q (no_slot h) = ground arith
    go _ q (created x u l free before m w cu) =
        let p : u ≡ t' = ground arith in
        rw (sym p) (
          cu,
          (λ j. signalled name u address j (
              named_sem-hit u name x (record { name = name; sem = address }) cu l
                (placed t u name x address w) (strcmp_refl name))),
          (λ other n. named_sem-other t u c cu name other x address l free w n),
        )
