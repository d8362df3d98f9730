-- ===== src/Lists/Refinement.antt =====
-- NachOS-4.0/code/lib/list.cc: List and SortedList implement operations on mathematical lists.
use hcmus_csc10007_operating.Common.{
  ℕ, suc, ◌==◌, ◌≡◌, inl, inr, refl, sym, ap, ◌∙◌, Bool, true, false, if◌then◌else◌, Option, none,
  some, List, [], ◌∷◌, ◌++◌, Bool-cases, arith,
}
use mathlib.Core.Path.{subst}
use hcmus_csc10007_operating.Lists.{
  Store, Attempt, done, failed_assert, ◌>>=◌, append, prepend, remove_front, remove, sorted_insert,
  assert_not_in, deref, remove_from,
}
use hcmus_csc10007_operating.Lists.Chains.{Nodes, items, items-append, contains, Linked, link_to}
use hcmus_csc10007_operating.Lists.Unlinking.{
  erase, contains-cons, Becomes, remove_front_lem, remove_from_lem, assert_in_lem, assert_in_fails,
  assert_not_in_lem, assert_not_in_fails,
}
use hcmus_csc10007_operating.Lists.Sorting.{insert_before}
use hcmus_csc10007_operating.Lists.Inserting.{
  append_lem, append_refused, prepend_lem, prepend_refused, sorted_insert_lem,
  sorted_insert_refused,
}

-- The list object and its elements stand for the mathematical list.
abbrev pub Holds : Store → List ℕ → Type 0
Holds s xs = (ns : Nodes) × Linked s ns × (items ns ≡ xs)

pub data Operation : Type 0 where
  appending : ℕ → Operation
  prepending : ℕ → Operation
  removing_front : Operation
  removing : ℕ → Operation
  inserting : ℕ → Operation

abbrev plain : Attempt Store → Attempt (Store × Option ℕ)
plain o = do s ← o; done (s, none)

-- An operation of a list object, with the item that it returns.
unfoldable pub perform_list : (ℕ → ℕ → Bool) → Operation → Store → Attempt (Store × Option ℕ)
perform_list before (appending x) s = plain (append x s)
perform_list before (prepending x) s = plain (prepend x s)
perform_list before removing_front s = do r ← remove_front s; done (r.0, some r.1)
perform_list before (removing x) s = plain (remove x s)
perform_list before (inserting x) s = plain (sorted_insert before x s)

abbrev unless : Bool → List ℕ → Option (List ℕ × Option ℕ)
unless true xs = none
unless false xs = some (xs, none)

-- The same on mathematical lists: `none` where an ASSERT fails.
unfoldable pub specified : (ℕ → ℕ → Bool) → Operation → List ℕ → Option (List ℕ × Option ℕ)
specified before (appending x) xs = unless (contains x xs) (xs ++ x ∷ [])
specified before (prepending x) xs = unless (contains x xs) (x ∷ xs)
specified before removing_front [] = none
specified before removing_front (x ∷ xs) = some (xs, some x)
specified before (removing x) xs =
    if contains x xs then unless (contains x (erase x xs)) (erase x xs) else none
specified before (inserting x) xs = unless (contains x xs) (insert_before before x xs)

abbrev pub Agree : Attempt (Store × Option ℕ) → Option (List ℕ × Option ℕ) → Type 0
Agree failed_assert none = Unit {0}
Agree (done (s, x)) (some (xs, y)) = Holds s xs × (x ≡ y)
Agree _ _ = ⊥

Agree-plain :
    {o : Attempt Store} {ns : Nodes} (xs : List ℕ)
    → Becomes o ns
    → items ns ≡ xs
    → Agree (plain o) (some (xs, none))
Agree-plain {o} {ns} xs b e =
    subst (λ o. Agree (plain o) (some (xs, none))) (sym b.1) ((ns, b.2, e), refl)

remove_front-Agree :
    (before : ℕ → ℕ → Bool) (s : Store) (ns : Nodes)
    → Linked s ns
    → Agree (perform_list before removing_front s) (specified before removing_front (items ns))
unfolding perform_list specified remove_front
remove_front-Agree before s [] v =
    let e : remove_front s ≡ failed_assert = ground (arith, v.counted) in rw e tt
remove_front-Agree before s ((a, x) ∷ ns) v =
    let r = remove_front_lem s a x ns v in rw r.1 ((ns, r.2, refl), refl)

remove_absent :
    (x : ℕ) (s : Store) (ns : Nodes)
    → Linked s ns
    → contains x (items ns) ≡ false
    → remove x s ≡ failed_assert
unfolding remove
remove_absent x s ns v h = rw (assert_in_fails x v h) refl

-- Remove of an item that is there, up to the last ASSERT.
remove_lem :
    (x : ℕ) (s : Store) (ns : Nodes)
    → Linked s ns
    → contains x (items ns) ≡ true
    → (out : Nodes) × (u : Store) × (remove x s ≡ assert_not_in x u)
      × Linked u out
      × (items out ≡ erase x (items ns))
unfolding remove
remove_lem x s [] v h = cc
remove_lem x s ((a, y) ∷ ns) v h =
    let front = ap (deref s.cell) v.first_lem ∙ v.chain.0 in
    elim (Bool-cases (x == y)) [
      | inl e ↦
          let r = remove_front_lem s a y ns v in
          (ns, r.0, rw (assert_in_lem x v h, front, e, r.1, e) refl, r.2, rw e refl)
      | inr e ↦
          let r =
            remove_from_lem (suc s.num_in_list) x s [] a y ns v (omega (arith, v.counted))
              (sym (contains-cons x y (items ns) e) ∙ h) in
          (
            (a, y) ∷ r.0,
            r.1.0,
            rw (assert_in_lem x v h, front, e)
                (ap (λ o. o >>= assert_not_in x)
                  (ap (λ q. remove_from (suc s.num_in_list) x q (link_to ns none) s) v.first_lem
                    ∙ r.1.1)),
            r.1.2,
            rw e (ap (◌∷◌ y) r.2),
          )
    ]

remove-Agree :
    (before : ℕ → ℕ → Bool) (x : ℕ) (s : Store) (ns : Nodes)
    → Linked s ns
    → Agree (perform_list before (removing x) s) (specified before (removing x) (items ns))
unfolding perform_list specified
remove-Agree before x s ns v = elim (Bool-cases (contains x (items ns))) [
  | inl h ↦
      let r = remove_lem x s ns v h in
      elim (Bool-cases (contains x (erase x (items ns)))) [
        | inl k ↦
            let e : remove x s ≡ failed_assert =
              r.2 ∙ assert_not_in_fails x r.3 (ap (contains x) r.4 ∙ k) in
            rw (h, k, e) tt
        | inr k ↦
            let e : remove x s ≡ done r.1 =
              r.2 ∙ assert_not_in_lem x r.3 (ap (contains x) r.4 ∙ k) in
            rw (h, k) (Agree-plain _ (r.1, e, r.3) r.4)
      ]
  | inr h ↦ let e = remove_absent x s ns v h in rw (e, h) tt
]

Linked-Agree :
    (before : ℕ → ℕ → Bool) (op : Operation) (s : Store) (ns : Nodes)
    → Linked s ns
    → Agree (perform_list before op s) (specified before op (items ns))
unfolding perform_list specified
Linked-Agree before (appending x) s ns v = elim (Bool-cases (contains x (items ns))) [
  | inl h ↦ rw (append_refused s x v h, h) tt
  | inr h ↦ rw h (Agree-plain _ (append_lem s x ns v h) (items-append ns _))
]
Linked-Agree before (prepending x) s ns v = elim (Bool-cases (contains x (items ns))) [
  | inl h ↦ rw (prepend_refused s x v h, h) tt
  | inr h ↦ rw h (Agree-plain _ (prepend_lem s x ns v h) refl)
]
Linked-Agree before removing_front s ns v = remove_front-Agree before s ns v
Linked-Agree before (removing x) s ns v = remove-Agree before x s ns v
Linked-Agree before (inserting x) s ns v = elim (Bool-cases (contains x (items ns))) [
  | inl h ↦ rw (sorted_insert_refused s x before v h, h) tt
  | inr h ↦ let r = sorted_insert_lem s x before ns v h in rw h (Agree-plain _ r.1 r.2)
]

-- An operation of a List or SortedList that holds xs fails an ASSERT exactly where the operation on xs
-- is refused, and otherwise ends, with no bad read, in a list object that holds the new list, and
-- returns its item.
pub perform_list-Agree :
    (before : ℕ → ℕ → Bool) (op : Operation) (s : Store) (xs : List ℕ)
    → Holds s xs
    → Agree (perform_list before op s) (specified before op xs)
perform_list-Agree before op s xs h =
    subst (λ xs. Agree (perform_list before op s) (specified before op xs)) h.2
      (Linked-Agree before op s h.0 h.1)
