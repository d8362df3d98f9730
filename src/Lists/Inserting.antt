-- ===== src/Lists/Inserting.antt =====
-- NachOS-4.0/code/lib/list.cc: the insertions, Append, Prepend and SortedList::Insert.
use hcmus_csc10007_operating.Common.{
  ℕ, suc, ◌≡◌, inl, inr, refl, sym, ap, ◌∙◌, Bool, true, false, none, some, [], ◌∷◌, ◌++◌, arith,
  Bool-cases,
}
use mathlib.Core.Path.{subst}
use hcmus_csc10007_operating.Lists.{
  Element, Store, done, failed_assert, ◌>>=◌, set_next, put_only, count_up, new_element, is_empty,
  deref, append, prepend, assert_not_in, insert_from, sorted_insert, finish_insert,
}
use hcmus_csc10007_operating.Lists.Chains.{Nodes, items, contains, Linked}
use hcmus_csc10007_operating.Lists.Links.{
  Ready, new_element-Ready, relinked, set_next_lem, put_only-Linked, push_front-Linked, Nodes-last,
}
use hcmus_csc10007_operating.Lists.Sorting.{insert_before}
use hcmus_csc10007_operating.Lists.Unlinking.{
  assert_not_in_lem, assert_not_in_fails, Becomes, append_step,
}
use hcmus_csc10007_operating.Lists.Walking.{finish_lem, append_last, insert_from_lem, bind_done}

-- The front of a list that is not empty.
push_front_lem :
    (t : Store) (a x : ℕ) (n : ℕ × ℕ) (ns : Nodes)
    → Ready t a x (n ∷ ns)
    → Becomes
        (do v ← set_next (some a) t.first t; finish_insert x (record v { first = some a }))
        ((a, x) ∷ (n ∷ ns))
push_front_lem t a x n ns r =
    let e : Element = record { item = x; next = none } in
    let u : Store = record (relinked t a e t.first) { first = some a } in
    let v = push_front-Linked n ns e refl r in
    (count_up u, rw (set_next_lem t a t.first r.made) (finish_lem u x a [] (n ∷ ns) v), v)

empty_lem : {t : Store} {n : ℕ × ℕ} {ns : Nodes} → Linked t (n ∷ ns) → is_empty t ≡ false
empty_lem v = ground (arith, v.counted)

no_items_lem : {t : Store} → Linked t [] → is_empty t ≡ true
no_items_lem v = ground (arith, v.counted)

last_empty_lem : {t : Store} (ms : Nodes) (n : ℕ × ℕ) → Linked t (ms ++ n ∷ []) → is_empty t ≡ false
last_empty_lem [] n v = empty_lem v
last_empty_lem (m ∷ ms) n v = empty_lem v

module _ (s : Store) (x : ℕ) where
  refused :
      {ns : Nodes}
      → Linked s ns
      → contains x (items ns) ≡ true
      → assert_not_in x (new_element x s) ≡ failed_assert
  refused v h = assert_not_in_fails x (new_element-Ready x v).linked h

  allowed :
      {ns : Nodes}
      → Linked s ns
      → contains x (items ns) ≡ false
      → assert_not_in x (new_element x s) ≡ done (new_element x s)
  allowed v h = assert_not_in_lem x (new_element-Ready x v).linked h

  only :
      Linked s []
      → Becomes (finish_insert x (put_only s.fresh (new_element x s))) ((s.fresh, x) ∷ [])
  only v =
      let w = put_only-Linked (new_element-Ready x v) in
      (
        count_up (put_only s.fresh (new_element x s)),
        finish_lem (put_only s.fresh (new_element x s)) x s.fresh [] [] w,
        w,
      )

  pub append_refused :
      {ns : Nodes} → Linked s ns → contains x (items ns) ≡ true → append x s ≡ failed_assert
  unfolding append
  append_refused v h = rw (refused v h) refl

  pub prepend_refused :
      {ns : Nodes} → Linked s ns → contains x (items ns) ≡ true → prepend x s ≡ failed_assert
  unfolding prepend
  prepend_refused v h = rw (refused v h) refl

  pub sorted_insert_refused :
      {ns : Nodes} (before : ℕ → ℕ → Bool)
      → Linked s ns
      → contains x (items ns) ≡ true
      → sorted_insert before x s ≡ failed_assert
  unfolding sorted_insert
  sorted_insert_refused before v h = rw (refused v h) refl

  append_first : Linked s [] → contains x [] ≡ false → Becomes (append x s) ((s.fresh, x) ∷ [])
  unfolding append
  append_first v h = let w = only v in (w.0, rw (allowed v h, no_items_lem v) w.1, w.2)

  append_after :
      (ms : Nodes) (p y : ℕ)
      → Linked s (ms ++ (p, y) ∷ [])
      → contains x (items (ms ++ (p, y) ∷ [])) ≡ false
      → Becomes (append x s) (ms ++ (p, y) ∷ ((s.fresh, x) ∷ []))
  unfolding append
  append_after ms p y v h =
      let w = append_last (new_element x s) s.fresh x ms p y (new_element-Ready x v) in
      (
        w.0,
        rw (allowed v h, last_empty_lem ms (p, y) v)
            (bind_done (set_next s.last (some s.fresh) (new_element x s))
                (λ v. record v { last = some s.fresh }) (finish_insert x)
              ∙ w.1),
        w.2,
      )

  pub append_lem :
      (ns : Nodes)
      → Linked s ns
      → contains x (items ns) ≡ false
      → Becomes (append x s) (ns ++ (s.fresh, x) ∷ [])
  append_lem ns v h = elim (Nodes-last ns) [
    | inl e ↦
        subst
          (λ ns.
            Linked s ns
            → contains x (items ns) ≡ false
            → Becomes (append x s) (ns ++ (s.fresh, x) ∷ []))
          (sym e) append_first v h
    | inr q ↦
        subst
          (λ ns.
            Linked s ns
            → contains x (items ns) ≡ false
            → Becomes (append x s) (ns ++ (s.fresh, x) ∷ []))
          (sym q.2)
          (λ v h.
            subst (Becomes (append x s)) (sym (append_step q.0 q.1 ((s.fresh, x) ∷ [])))
              (append_after q.0 q.1.0 q.1.1 v h))
          v h
  ]

  pub prepend_lem :
      (ns : Nodes)
      → Linked s ns
      → contains x (items ns) ≡ false
      → Becomes (prepend x s) ((s.fresh, x) ∷ ns)
  unfolding prepend
  prepend_lem [] v h = let w = only v in (w.0, rw (allowed v h, no_items_lem v) w.1, w.2)
  prepend_lem (n ∷ ns) v h =
      let w = push_front_lem (new_element x s) s.fresh x n ns (new_element-Ready x v) in
      (
        w.0,
        rw (allowed v h, empty_lem v)
            (bind_done (set_next (some s.fresh) s.first (new_element x s))
                (λ v. record v { first = some s.fresh }) (finish_insert x)
              ∙ w.1),
        w.2,
      )

  pub sorted_insert_lem :
      (before : ℕ → ℕ → Bool) (ns : Nodes)
      → Linked s ns
      → contains x (items ns) ≡ false
      → (out : Nodes) × Becomes (sorted_insert before x s) out
        × (items out ≡ insert_before before x (items ns))
  unfolding sorted_insert
  sorted_insert_lem before [] v h =
      let w = only v in ((s.fresh, x) ∷ [], (w.0, rw (allowed v h, no_items_lem v) w.1, w.2), refl)
  sorted_insert_lem before ((p, y) ∷ ns) v h =
      let r = new_element-Ready x v in
      let front = ap (deref (new_element x s).cell) v.first_lem ∙ r.linked.chain.0 in
      elim (Bool-cases (before x y)) [
        | inl e ↦
            let w = push_front_lem (new_element x s) s.fresh x (p, y) ns r in
            (
              (s.fresh, x) ∷ ((p, y) ∷ ns),
              (w.0, rw (allowed v h, empty_lem v, front, e) w.1, w.2),
              rw e refl,
            )
        | inr e ↦
            let w =
              insert_from_lem (suc s.num_in_list) before x s.fresh (new_element x s) [] p y ns r
                (omega (arith, v.counted)) in
            (
              (p, y) ∷ w.0,
              (
                w.1.0,
                rw (allowed v h, empty_lem v, front, e)
                    (ap (λ q. insert_from (suc s.num_in_list) before x s.fresh q (new_element x s))
                        v.first_lem
                      ∙ w.1.1),
                w.1.2,
              ),
              rw e (ap (◌∷◌ y) w.2),
            )
      ]
