-- ===== src/Lists/Walking.antt =====
-- NachOS-4.0/code/lib/list.cc: a new element behind the last one, and the walk of SortedList::Insert.
use hcmus_csc10007_operating.Common.{
  ℕ, zero, suc, ◌<◌, ◌≡◌, inl, inr, refl, sym, ap, ◌∙◌, Bool, true, none, some, [], ◌∷◌, ◌++◌,
  length, arith, Bool-cases,
}
use mathlib.Core.Path.{subst}
use hcmus_csc10007_operating.Lists.{
  Element, Store, Attempt, done, failed_assert, bad_read, out_of_fuel, ◌>>=◌, set_next, count_up,
  assert_in, insert_from, finish_insert,
}
use hcmus_csc10007_operating.Lists.Chains.{
  Nodes, items, Avoids-split, contains, Linked, Chain-split,
}
use hcmus_csc10007_operating.Lists.Links.{
  Ready, relinked, set_next_lem, push_after-Linked, push_back-Linked, last_of-append, cell_at,
}
use hcmus_csc10007_operating.Lists.Sorting.{insert_before}
use hcmus_csc10007_operating.Lists.Unlinking.{assert_in_lem, Becomes, append_step}

contains-mid : (x a : ℕ) (ms ns : Nodes) → contains x (items (ms ++ (a, x) ∷ ns)) ≡ true
contains-mid x a [] ns = ground arith
contains-mid x a ((b, y) ∷ ms) ns = ground (arith, contains-mid x a ms ns)

-- `ASSERT(IsInList(item))` at the end.
pub finish_lem :
    (u : Store) (x a : ℕ) (ms ns : Nodes)
    → Linked (count_up u) (ms ++ (a, x) ∷ ns)
    → assert_in x (count_up u) ≡ done (count_up u)
finish_lem u x a ms ns v = assert_in_lem x v (contains-mid x a ms ns)

-- The last element's pointer to the new one, and `last`.
pub append_last :
    (t : Store) (a x : ℕ) (ms : Nodes) (p y : ℕ)
    → Ready t a x (ms ++ (p, y) ∷ [])
    → Becomes
        (do v ← set_next t.last (some a) t; finish_insert x (record v { last = some a }))
        (ms ++ (p, y) ∷ ((a, x) ∷ []))
append_last t a x ms p y r =
    let e : Element = record { item = y; next = none } in
    let u : Store = record (relinked t p e (some a)) { last = some a } in
    let v = push_back-Linked ms p y r in
    let at_last : set_next t.last (some a) t ≡ done (relinked t p e (some a)) =
      ap (λ l. set_next l (some a) t) (r.linked.last_lem ∙ last_of-append ms (p, y) [])
      ∙ set_next_lem t p (some a) (cell_at t.cell ms p y [] r.linked.chain) in
    (
      count_up u,
      rw at_last (
          finish_lem u x a (ms ++ (p, y) ∷ []) []
            (subst (Linked (count_up u)) (sym (append_step ms (p, y) ((a, x) ∷ []))) v)),
      v,
    )

-- The loop of SortedList::Insert, at the element p.
pub insert_from_lem :
    (f : ℕ) (before : ℕ → ℕ → Bool) (x a : ℕ) (t : Store) (ms : Nodes) (p y : ℕ) (ns : Nodes)
    → Ready t a x (ms ++ (p, y) ∷ ns)
    → length ns < f
    → (out : Nodes) × Becomes (insert_from f before x a (some p) t) (ms ++ (p, y) ∷ out)
      × (items out ≡ insert_before before x (items ns))
unfolding insert_from
insert_from_lem zero before x a t ms p y ns r h = elim h [ ]
insert_from_lem (suc f) before x a t ms p y [] r h =
    let w = append_last t a x ms p y r in
    let old = Chain-split t.cell ms ((p, y) ∷ []) none r.linked.chain in
    ((a, x) ∷ [], (w.0, rw (old.1.0, insert_from) w.1, w.2), refl)
insert_from_lem (suc f) before x a t ms p y ((q, z) ∷ ns) r h =
    let old = Chain-split t.cell ms ((p, y) ∷ ((q, z) ∷ ns)) none r.linked.chain in
    let apart = Avoids-split a ms ((p, y) ∷ ((q, z) ∷ ns)) r.avoids in
    elim (Bool-cases (before x z)) [
      | inl e ↦
          let t1 = relinked t a (record { item = x; next = none }) (some q) in
          let at_p : t1.cell p ≡ some (record { item = y; next = some q }) =
            ground (arith, apart.1.0, old.1.0) in
          (
            (a, x) ∷ ((q, z) ∷ ns),
            (
              count_up (relinked t1 p (record { item = y; next = some q }) (some a)),
              rw
                  (
                    old.1.0,
                    old.1.1.0,
                    e,
                    insert_from,
                    set_next_lem t a (some q) r.made,
                    set_next_lem t1 p (some a) at_p,
                  )
                  refl,
              push_after-Linked ms p y (q, z) ns r,
            ),
            rw e refl,
          )
      | inr e ↦
          let w =
            insert_from_lem f before x a t (ms ++ (p, y) ∷ []) q z ns
              (subst (Ready t a x) (sym (append_step ms (p, y) ((q, z) ∷ ns))) r) (omega arith) in
          (
            (q, z) ∷ w.0,
            (
              w.1.0,
              rw (old.1.0, old.1.1.0, e, insert_from) w.1.1,
              subst (Linked w.1.0) (append_step ms (p, y) ((q, z) ∷ w.0)) w.1.2,
            ),
            rw e (ap (◌∷◌ z) w.2),
          )
    ]

pub bind_done :
    (m : Attempt Store) (f : Store → Store) (g : Store → Attempt Store)
    → ((m >>= λ v. done (f v)) >>= g) ≡ (m >>= λ v. g (f v))
bind_done (done v) f g = refl
bind_done failed_assert f g = refl
bind_done bad_read f g = refl
bind_done out_of_fuel f g = refl
