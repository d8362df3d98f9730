-- ===== src/Lists.antt =====
-- The linked lists of NachOS-4.0/code/lib/list.cc: List and SortedList on a heap of elements.
--
-- The kernel's lists hold pointers and numbers; both stand as numbers here. An
-- operation ends in `done`, in a failed ASSERT, in a read through NULL or through a deleted element,
-- or with a loop that has more rounds than the fuel.
pub mod Sorting
pub mod Chains
pub mod Links
pub mod Unlinking
pub mod Walking
pub mod Inserting
pub mod Refinement
pub mod Order
use hcmus_csc10007_operating.Common.{
  ℕ, zero, suc, ◌+◌, ◌-◌, ◌==◌, if◌then◌else◌, Bool, true, false, Option, none, some, assign_at,
  List, [], ◌∷◌, ◌++◌, not,
}

pub record Element : Type 0 where
  pub item : ℕ
  pub next : Option ℕ

-- A list with the heap in which its elements stand. `fresh` is the next address that `new` gives.
pub record Store : Type 0 where
  pub cell : ℕ → Option Element
  pub fresh : ℕ
  pub first : Option ℕ
  pub last : Option ℕ
  pub num_in_list : ℕ

pub data Attempt (A : Type 0) : Type 0 where
  done : A → Attempt A
  failed_assert bad_read out_of_fuel : Attempt A

infixl 5 ◌>>=◌
abbrev pub ◌>>=◌ : {A B : Type 0} → Attempt A → (A → Attempt B) → Attempt B
◌>>=◌ (done a) f = f a
◌>>=◌ failed_assert f = failed_assert
◌>>=◌ bad_read f = bad_read
◌>>=◌ out_of_fuel f = out_of_fuel

abbrev pub follow : {A : Type 0} → Option A → Attempt A
follow none = bad_read
follow (some a) = done a

-- A read through a pointer.
abbrev pub deref : (ℕ → Option Element) → Option ℕ → Option Element
deref cell none = none
deref cell (some a) = cell a

abbrev pub null_pointer : Option ℕ → Bool
null_pointer none = true
null_pointer (some a) = false

abbrev pub is_empty : Store → Bool
is_empty s = s.num_in_list == 0

abbrev pub same_pointer : Option ℕ → Option ℕ → Bool
same_pointer none none = true
same_pointer (some a) (some b) = a == b
same_pointer none (some b) = false
same_pointer (some a) none = false

abbrev pub assert : Bool → Store → Attempt Store
assert true s = done s
assert false s = failed_assert

-- `new ListElement<T>(item)`, its address the old `fresh`.
abbrev pub new_element : ℕ → Store → Store
new_element x s = record s {
  cell = assign_at s.cell s.fresh (some (record { item = x; next = none }));
  fresh = s.fresh + 1;
}

-- `p->next = q`.
pub set_next : Option ℕ → Option ℕ → Store → Attempt Store
set_next none q s = bad_read
set_next (some a) q s = do
  e ← follow (s.cell a)
  done (record s { cell = assign_at s.cell a (some (record { item = e.item; next = q })) })

-- The loop of IsInList, with fuel for its rounds.
pub search_from : ℕ → (ℕ → Option Element) → ℕ → Option ℕ → Attempt Bool
search_from zero cell x p = out_of_fuel
search_from (suc f) cell x none = done false
search_from (suc f) cell x (some a) = elim (cell a) [
  | none ↦ bad_read
  | some e ↦ let rest = search_from f cell x e.next in if x == e.item then done true else rest
]

pub is_in_list : ℕ → Store → Attempt Bool
is_in_list x s = search_from (suc s.num_in_list) s.cell x s.first

-- `ASSERT(IsInList(item))` and `ASSERT(!IsInList(item))`.
pub assert_in : ℕ → Store → Attempt Store
assert_in x s = do found ← is_in_list x s; assert found s

pub assert_not_in : ℕ → Store → Attempt Store
assert_not_in x s = do found ← is_in_list x s; assert (not found) s

abbrev pub count_up : Store → Store
count_up s = record s { num_in_list = s.num_in_list + 1 }

abbrev pub put_only : ℕ → Store → Store
put_only a s = record s { first = some a; last = some a }

unfoldable pub append : ℕ → Store → Attempt Store
append x s = do
  t ← assert_not_in x (new_element x s)
  u ←
      (if is_empty t
        then done (put_only s.fresh t)
        else (do v ← set_next t.last (some s.fresh) t; done (record v { last = some s.fresh })))
  assert_in x (count_up u)

unfoldable pub prepend : ℕ → Store → Attempt Store
prepend x s = do
  t ← assert_not_in x (new_element x s)
  u ←
      (if is_empty t
        then done (put_only s.fresh t)
        else (do v ← set_next (some s.fresh) t.first t; done (record v { first = some s.fresh })))
  assert_in x (count_up u)

unfoldable pub remove_front : Store → Attempt (Store × ℕ)
remove_front s = do
  s' ← assert (not (is_empty s)) s
  a ← follow s'.first
  e ← follow (s'.cell a)
  let t =
      (if same_pointer s.first s.last
        then record s { first = none; last = none }
        else record s { first = e.next })
  done (record t { cell = assign_at t.cell a none; num_in_list = t.num_in_list - 1 }, e.item)

-- The loop of Remove: `prev` stands before `ptr`. It is to find the item before `ptr` is NULL.
pub remove_from : ℕ → ℕ → Option ℕ → Option ℕ → Store → Attempt Store
remove_from zero x prev ptr s = out_of_fuel
remove_from (suc f) x prev none s = failed_assert
remove_from (suc f) x prev (some p) s = elim (s.cell p) [
  | none ↦ bad_read
  | some e ↦
      let rest = remove_from f x (some p) e.next s in
      let found = (do
        t ← set_next prev e.next s
        done (record t {
          last = if null_pointer e.next then prev else t.last;
          cell = assign_at t.cell p none;
          num_in_list = t.num_in_list - 1;
        })) in
      if x == e.item then found else rest
]

unfoldable pub remove : ℕ → Store → Attempt Store
remove x s = do
  t ← assert_in x s
  e ← follow (deref t.cell t.first)
  u ←
      (if x == e.item
        then (do r ← remove_front t; assert (x == r.1) r.0)
        else remove_from (suc t.num_in_list) x t.first e.next t)
  assert_not_in x u

-- The end of SortedList::Insert, past the returns of the loop.
abbrev pub finish_insert : ℕ → Store → Attempt Store
finish_insert x u = assert_in x (count_up u)

-- The loop of SortedList::Insert: the new element `a` of item `x` goes before the first later one.
pub insert_from : ℕ → (ℕ → ℕ → Bool) → ℕ → ℕ → Option ℕ → Store → Attempt Store
insert_from zero before x a ptr s = out_of_fuel
insert_from (suc f) before x a ptr s = elim (deref s.cell ptr) [
  | none ↦ bad_read
  | some e ↦ elim e.next [
    | none ↦ (do t ← set_next s.last (some a) s; finish_insert x (record t { last = some a }))
    | some q ↦ elim (s.cell q) [
      | none ↦ bad_read
      | some n ↦
          let rest = insert_from f before x a (some q) s in
          let found = (do
            t ← set_next (some a) (some q) s
            u ← set_next ptr (some a) t
            done (count_up u)) in
          if before x n.item then found else rest
    ]
  ]
]

-- SortedList::Insert; `before x y` is `compare(x, y) < 0`.
unfoldable pub sorted_insert : (ℕ → ℕ → Bool) → ℕ → Store → Attempt Store
sorted_insert before x s = do
  t ← assert_not_in x (new_element x s)
  (if is_empty t then finish_insert x (put_only s.fresh t) else (do
    e ← follow (deref t.cell t.first)
    (if before x e.item
        then (do
          u ← set_next (some s.fresh) t.first t
          finish_insert x (record u { first = some s.fresh }))
        else insert_from (suc t.num_in_list) before x s.fresh t.first t)))
