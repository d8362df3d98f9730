-- ===== src/Lists/Order.antt =====
-- NachOS-4.0/code/lib/list.cc: what SortedList keeps over any sequence of its operations.
use hcmus_csc10007_operating.Common.{
  ℕ, ◌==◌, ◌≡◌, refl, Bool, false, Option, none, some, List, [], ◌∷◌, Bool-cases, arith, inl, inr,
}
use mathlib.Core.Path.{subst}
use hcmus_csc10007_operating.Lists.{Store, Attempt, done, failed_assert, bad_read, out_of_fuel}
use hcmus_csc10007_operating.Lists.Chains.{contains}
use hcmus_csc10007_operating.Lists.Unlinking.{erase}
use hcmus_csc10007_operating.Lists.Sorting.{
  insert_before, NoneBefore, Ordered, IsOrder, Ordered-insert,
}
use hcmus_csc10007_operating.Lists.Refinement.{
  Holds, Operation, appending, prepending, removing_front, removing, inserting, perform_list,
  specified, Agree, perform_list-Agree,
}

-- List::List.
unfoldable pub new_list : Store
new_list = record { cell = λ a. none; fresh = 0; first = none; last = none; num_in_list = 0 }

-- Append and Prepend of a SortedList are Insert.
abbrev sorted_form : Operation → Operation
sorted_form (appending x) = inserting x
sorted_form (prepending x) = inserting x
sorted_form op = op

-- The operations on a SortedList one after the other.
unfoldable pub perform_sorted : (ℕ → ℕ → Bool) → List Operation → Store → Attempt Store
perform_sorted before [] s = done s
perform_sorted before (op ∷ ops) s = elim (perform_list before (sorted_form op) s) [
  | done r ↦ perform_sorted before ops r.0
  | failed_assert ↦ failed_assert
  | bad_read ↦ bad_read
  | out_of_fuel ↦ out_of_fuel
]

-- The same on the mathematical list.
unfoldable pub specified_sorted : (ℕ → ℕ → Bool) → List Operation → List ℕ → Option (List ℕ)
specified_sorted before [] xs = some xs
specified_sorted before (op ∷ ops) xs = elim (specified before (sorted_form op) xs) [
  | none ↦ none
  | some r ↦ specified_sorted before ops r.0
]

module _ (before : ℕ → ℕ → Bool) where
  NoneBefore-erase :
      (x z : ℕ) (ys : List ℕ) → NoneBefore before x ys → NoneBefore before x (erase z ys)
  NoneBefore-erase x z [] h = tt
  NoneBefore-erase x z (y ∷ ys) h = elim (Bool-cases (z == y)) [
    | inl e ↦ rw e h.1
    | inr e ↦ rw e (h.0, NoneBefore-erase x z ys h.1)
  ]

  Ordered-erase : (z : ℕ) (ys : List ℕ) → Ordered before ys → Ordered before (erase z ys)
  Ordered-erase z [] h = tt
  Ordered-erase z (y ∷ ys) h = elim (Bool-cases (z == y)) [
    | inl e ↦ rw e h.1
    | inr e ↦ rw e (NoneBefore-erase y z ys h.0, Ordered-erase z ys h.1)
  ]

abbrev pub Distinct : List ℕ → Type 0
Distinct [] = Unit
Distinct (x ∷ xs) = (contains x xs ≡ false) × Distinct xs

contains-erase : (x z : ℕ) (ys : List ℕ) → contains x ys ≡ false → contains x (erase z ys) ≡ false
contains-erase x z [] h = refl
contains-erase x z (y ∷ ys) h = ground (arith, contains-erase x z ys)

Distinct-erase : (z : ℕ) (ys : List ℕ) → Distinct ys → Distinct (erase z ys)
Distinct-erase z [] h = tt
Distinct-erase z (y ∷ ys) h = elim (Bool-cases (z == y)) [
  | inl e ↦ rw e h.1
  | inr e ↦ rw e (contains-erase y z ys h.0, Distinct-erase z ys h.1)
]

-- The last ASSERT of Remove passes on a list with no item twice.
pub contains-erase_self : (x : ℕ) (ys : List ℕ) → Distinct ys → contains x (erase x ys) ≡ false
contains-erase_self x [] h = refl
contains-erase_self x (y ∷ ys) h = ground (arith, contains-erase_self x ys h.1, h.0)

module _ {before : ℕ → ℕ → Bool} (o : IsOrder before) where
  contains-insert :
      (x z : ℕ) (ys : List ℕ)
      → (z == x) ≡ false
      → contains z ys ≡ false
      → contains z (insert_before before x ys) ≡ false
  contains-insert x z [] h k = ground arith
  contains-insert x z (y ∷ ys) h k = ground (arith, contains-insert x z ys h)

  Distinct-insert :
      (x : ℕ) (ys : List ℕ)
      → contains x ys ≡ false
      → Distinct ys
      → Distinct (insert_before before x ys)
  Distinct-insert x [] h k = (refl, tt)
  Distinct-insert x (y ∷ ys) h k =
      let ne : (y == x) ≡ false = ground arith in
      elim (Bool-cases (before x y)) [
        | inl e ↦ rw e (h, k)
        | inr e ↦ rw e (contains-insert x y ys ne k.0, Distinct-insert x ys (ground arith) k.1)
      ]

-- Both fail, or the list object holds the list, in order and with no item twice.
abbrev pub Implements : (ℕ → ℕ → Bool) → Attempt Store → Option (List ℕ) → Type 0
Implements before failed_assert none = Unit {0}
Implements before (done s) (some xs) = Holds s xs × Ordered before xs × Distinct xs
Implements before _ _ = ⊥

module _ {before : ℕ → ℕ → Bool} (o : IsOrder before) where
  insert_keeps :
      (x : ℕ) (xs ys : List ℕ) (r : Option ℕ)
      → specified before (inserting x) xs ≡ some (ys, r)
      → Ordered before xs
      → Distinct xs
      → Ordered before ys × Distinct ys
  unfolding specified
  insert_keeps x xs ys r e h k = elim (Bool-cases (contains x xs)) [
    | inl c ↦ let e' : ◌≡◌ {A = Option (List ℕ × Option ℕ)} none (some (ys, r)) = rw c at e in cc
    | inr c ↦
        let e' : ◌≡◌ {A = Option (List ℕ × Option ℕ)} (some (insert_before before x xs, none))
            (some (ys, r)) =
          rw c at e in
        let p : insert_before before x xs ≡ ys = cc in
        subst (λ l. Ordered before l × Distinct l) p
          (Ordered-insert o x xs h, Distinct-insert o x xs c k)
  ]

  remove_keeps :
      (x : ℕ) (xs ys : List ℕ) (r : Option ℕ)
      → specified before (removing x) xs ≡ some (ys, r)
      → Ordered before xs
      → Distinct xs
      → Ordered before ys × Distinct ys
  unfolding specified
  remove_keeps x xs ys r e h k = elim (Bool-cases (contains x xs)) [
    | inl c ↦
        let e' : ◌≡◌ {A = Option (List ℕ × Option ℕ)} (some (erase x xs, none)) (some (ys, r)) =
          rw (c, contains-erase_self x xs k) at e in
        let p : erase x xs ≡ ys = cc in
        subst (λ l. Ordered before l × Distinct l) p
          (Ordered-erase before x xs h, Distinct-erase x xs k)
    | inr c ↦ let e' : ◌≡◌ {A = Option (List ℕ × Option ℕ)} none (some (ys, r)) = rw c at e in cc
  ]

  -- A mathematical operation keeps a list ordered.
  specified-keeps :
      (op : Operation) (xs ys : List ℕ) (r : Option ℕ)
      → specified before (sorted_form op) xs ≡ some (ys, r)
      → Ordered before xs
      → Distinct xs
      → Ordered before ys × Distinct ys
  unfolding specified
  specified-keeps (appending x) xs ys r e h k = insert_keeps x xs ys r e h k
  specified-keeps (prepending x) xs ys r e h k = insert_keeps x xs ys r e h k
  specified-keeps removing_front [] ys r e h k = cc
  specified-keeps removing_front (x ∷ xs) ys r e h k = ground arith
  specified-keeps (removing x) xs ys r e h k = remove_keeps x xs ys r e h k
  specified-keeps (inserting x) xs ys r e h k = insert_keeps x xs ys r e h k

  -- The rest of the operations, once the first has been done.
  after :
      (ops : List Operation) (q : Attempt (Store × Option ℕ)) (m : Option (List ℕ × Option ℕ))
      → ((s : Store) (ys : List ℕ) (r : Option ℕ)
          → m ≡ some (ys, r)
          → Holds s ys
          → Implements before (perform_sorted before ops s) (specified_sorted before ops ys))
      → Agree q m
      → Implements before
          (elim q [
            | done r ↦ perform_sorted before ops r.0
            | failed_assert ↦ failed_assert
            | bad_read ↦ bad_read
            | out_of_fuel ↦ out_of_fuel
          ])
          (elim m [ none ↦ none | some r ↦ specified_sorted before ops r.0 ])
  after ops failed_assert none f a = tt
  after ops failed_assert (some r) f a = absurd a
  after ops bad_read none f a = absurd a
  after ops bad_read (some r) f a = absurd a
  after ops out_of_fuel none f a = absurd a
  after ops out_of_fuel (some r) f a = absurd a
  after ops (done r) none f a = absurd a
  after ops (done q) (some r) f a = f q.0 r.0 r.1 refl a.0

  perform_sorted_from :
      (ops : List Operation) (s : Store) (xs : List ℕ)
      → Holds s xs
      → Ordered before xs
      → Distinct xs
      → Implements before (perform_sorted before ops s) (specified_sorted before ops xs)
  unfolding perform_sorted specified_sorted
  perform_sorted_from [] s xs h l k = (h, l, k)
  perform_sorted_from (op ∷ ops) s xs h l k =
      after ops (perform_list before (sorted_form op) s) (specified before (sorted_form op) xs)
        (λ t ys r e held.
          let keeps = specified-keeps op xs ys r e l k in
          perform_sorted_from ops t ys held keeps.0 keeps.1)
        (perform_list-Agree before (sorted_form op) s xs h)

  -- Where `compare` is an order: any operations of SortedList on a new list stop at an ASSERT exactly
  -- where the same operations on the empty mathematical list are refused, and otherwise end, with no
  -- bad read, in a list object that holds the list so made, in order and with no item twice.
  pub perform_sorted-Implements :
      (ops : List Operation)
      → Implements before (perform_sorted before ops new_list) (specified_sorted before ops [])
  unfolding new_list
  perform_sorted-Implements ops =
      perform_sorted_from ops new_list []
        (
          [],
          record {
            first_lem = refl;
            last_lem = refl;
            counted = refl;
            chain = tt;
            apart = tt;
            below = tt;
          },
          refl,
        )
        tt tt
