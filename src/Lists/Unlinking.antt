-- ===== src/Lists/Unlinking.antt =====
-- NachOS-4.0/code/lib/list.cc: the ASSERTs of the operations, RemoveFront, and the loop of Remove.
use hcmus_csc10007_operating.Common.{
  ℕ, zero, suc, ◌-◌, ◌<◌, ◌==◌, ◌≡◌, inl, inr, refl, sym, ap, ◌∙◌, true, false, if◌then◌else◌,
  Option, none, some, assign_at, List, [], ◌∷◌, ◌++◌, length, arith, Bool-cases,
}
use mathlib.Core.Path.{subst}
use hcmus_csc10007_operating.Lists.{
  Store, Attempt, done, failed_assert, assert_in, assert_not_in, null_pointer, same_pointer,
  remove_front, remove_from,
}
use hcmus_csc10007_operating.Lists.Chains.{
  Nodes, items, link_to, last_of, Avoids, Apart, contains, Linked, Chain-write, Chain-split,
  Avoids-split, Below-split, Below-append, Avoids-append, Apart-remove, is_in_list_lem,
}
use hcmus_csc10007_operating.Lists.Links.{
  set_next_lem, last_of-append, link_to-append, Chain-relink, length-after,
}

module _ {s : Store} {ns : Nodes} (x : ℕ) (v : Linked s ns) where
  pub assert_in_lem : contains x (items ns) ≡ true → assert_in x s ≡ done s
  unfolding assert_in
  assert_in_lem h = rw (is_in_list_lem x v, h) refl

  pub assert_in_fails : contains x (items ns) ≡ false → assert_in x s ≡ failed_assert
  unfolding assert_in
  assert_in_fails h = rw (is_in_list_lem x v, h) refl

  pub assert_not_in_lem : contains x (items ns) ≡ false → assert_not_in x s ≡ done s
  unfolding assert_not_in
  assert_not_in_lem h = rw (is_in_list_lem x v, h) refl

  pub assert_not_in_fails : contains x (items ns) ≡ true → assert_not_in x s ≡ failed_assert
  unfolding assert_not_in
  assert_not_in_fails h = rw (is_in_list_lem x v, h) refl

-- The store after a list operation, and what it holds.
abbrev pub Becomes : Attempt Store → Nodes → Type 0
Becomes o ns = (s : Store) × (o ≡ done s) × Linked s ns

last_of-ne :
    (a : ℕ) (n : ℕ × ℕ) (ns : Nodes)
    → Avoids a (n ∷ ns)
    → same_pointer (some a) (last_of (n ∷ ns)) ≡ false
last_of-ne a n [] h = ground (arith, h.0)
last_of-ne a n (m ∷ ns) h = last_of-ne a m ns h.1

-- RemoveFront of a list with an element.
pub remove_front_lem :
    (s : Store) (a x : ℕ) (ns : Nodes)
    → Linked s ((a, x) ∷ ns)
    → (t : Store) × (remove_front s ≡ done (t, x)) × Linked t ns
unfolding remove_front
remove_front_lem s a x [] v = (
  record s { first = none; last = none; cell = assign_at s.cell a none; num_in_list = 0 },
  ground (arith, v.first_lem, v.last_lem, v.counted, v.chain.0),
  record { first_lem = refl; last_lem = refl; counted = refl; chain = tt; apart = tt; below = tt },
)
remove_front_lem s a x (n ∷ ns) v =
    let differ : same_pointer s.first s.last ≡ false =
      (λ i. same_pointer (v.first_lem i) (v.last_lem i)) ∙ last_of-ne a n ns v.apart.0 in
    (
      record s {
        first = link_to (n ∷ ns) none;
        cell = assign_at s.cell a none;
        num_in_list = s.num_in_list - 1;
      },
      ground (arith, differ, v.first_lem, v.counted, v.chain.0),
      record {
        first_lem = refl;
        last_lem = v.last_lem;
        counted = omega (arith, v.counted);
        chain = Chain-write s.cell a none (n ∷ ns) none v.apart.0 v.chain.1;
        apart = v.apart.1;
        below = v.below.1;
      },
    )

abbrev unlinked : Store → ℕ → ℕ → ℕ → Nodes → Store
unlinked t p y q ns = record t {
  cell = assign_at (assign_at t.cell p (some (record { item = y; next = link_to ns none }))) q none;
  last = if null_pointer (link_to ns none) then some p else t.last;
  num_in_list = t.num_in_list - 1;
}

last_of-unlink :
    (p y q z : ℕ) (ns : Nodes) (l : Option ℕ)
    → l ≡ last_of ((q, z) ∷ ns)
    → (if null_pointer (link_to ns none) then some p else l) ≡ last_of ((p, y) ∷ ns)
last_of-unlink p y q z [] l h = refl
last_of-unlink p y q z (n ∷ ns) l h = h

Apart-skip :
    (ms : Nodes) (p y q z : ℕ) (ns : Nodes)
    → Apart (ms ++ (p, y) ∷ ((q, z) ∷ ns))
    → Apart (ms ++ (p, y) ∷ ns) × Avoids q (ms ++ (p, y) ∷ ns)
Apart-skip [] p y q z ns h = ((h.0.1, h.1.1), ((λ e. h.0.0 (sym e)), h.1.0))
Apart-skip ((b, w) ∷ ms) p y q z ns h =
    let r = Apart-skip ms p y q z ns h.1 in
    let k = Avoids-split b ms ((p, y) ∷ ((q, z) ∷ ns)) h.0 in
    ((Avoids-append b ms ((p, y) ∷ ns) k.0 (k.1.0, k.1.1.1), r.0), ((λ e. k.1.1.0 (sym e)), r.1))

-- The element q after p is taken out.
pub unlinked-Linked :
    (t : Store) (ms : Nodes) (p y q z : ℕ) (ns : Nodes)
    → Linked t (ms ++ (p, y) ∷ ((q, z) ∷ ns))
    → Linked (unlinked t p y q ns) (ms ++ (p, y) ∷ ns)
unlinked-Linked t ms p y q z ns v =
    let apart = Apart-remove ms ((q, z) ∷ ns) p y v.apart in
    let p_apart = Avoids-split p ms ((q, z) ∷ ns) apart.1 in
    let low = Below-split t.fresh ms ((p, y) ∷ ((q, z) ∷ ns)) v.below in
    let old = Chain-split t.cell ms ((p, y) ∷ ((q, z) ∷ ns)) none v.chain in
    let out = Apart-skip ms p y q z ns v.apart in
    record {
      first_lem = v.first_lem ∙ link_to-append ms p y ((q, z) ∷ ns) ns;
      last_lem =
          last_of-unlink p y q z ns t.last (v.last_lem ∙ last_of-append ms (p, y) ((q, z) ∷ ns))
          ∙ sym (last_of-append ms (p, y) ns);
      counted = omega (arith, v.counted, length-after ms (p, y) (q, z) ns);
      chain =
          Chain-write (assign_at t.cell p (some (record { item = y; next = link_to ns none }))) q
            none (ms ++ (p, y) ∷ ns) none out.1
            (Chain-relink t.cell ms p y ((q, z) ∷ ns) ns (link_to ns none) v.apart v.chain
              p_apart.1.1 old.1.1.1 refl);
      apart = out.0;
      below = Below-append t.fresh ms _ low.0 (low.1.0, low.1.1.1);
    }

abbrev pub erase : ℕ → List ℕ → List ℕ
erase x [] = []
erase x (y ∷ ys) = if x == y then ys else y ∷ erase x ys

pub contains-cons : (x y : ℕ) (ys : List ℕ) → (x == y) ≡ false → contains x (y ∷ ys) ≡ contains x ys
contains-cons x y ys h = rw h refl

pub append_step : (ms : Nodes) (n : ℕ × ℕ) (ns : Nodes) → (ms ++ n ∷ []) ++ ns ≡ ms ++ n ∷ ns
append_step [] n ns = refl
append_step (m ∷ ms) n ns = ap (◌∷◌ m) (append_step ms n ns)

-- The loop of Remove, at the element p.
pub remove_from_lem :
    (f x : ℕ) (s : Store) (ms : Nodes) (p y : ℕ) (ns : Nodes)
    → Linked s (ms ++ (p, y) ∷ ns)
    → length ns < f
    → contains x (items ns) ≡ true
    → (out : Nodes) × Becomes (remove_from f x (some p) (link_to ns none) s) (ms ++ (p, y) ∷ out)
      × (items out ≡ erase x (items ns))
unfolding remove_from
remove_from_lem zero x s ms p y ns v h k = elim h [ ]
remove_from_lem (suc f) x s ms p y [] v h k = cc
remove_from_lem (suc f) x s ms p y ((q, z) ∷ ns) v h k =
    let old = Chain-split s.cell ms ((p, y) ∷ ((q, z) ∷ ns)) none v.chain in
    elim (Bool-cases (x == z)) [
      | inl e ↦ (
        ns,
        (
          unlinked s p y q ns,
          rw (old.1.1.0, e, set_next_lem s p (link_to ns none) old.1.0) refl,
          unlinked-Linked s ms p y q z ns v,
        ),
        rw e refl,
      )
      | inr e ↦
          let r =
            remove_from_lem f x s (ms ++ (p, y) ∷ []) q z ns
              (subst (Linked s) (sym (append_step ms (p, y) ((q, z) ∷ ns))) v) (omega arith)
              (sym (contains-cons x z (items ns) e) ∙ k) in
          (
            (q, z) ∷ r.0,
            (
              r.1.0,
              rw (old.1.1.0, e) r.1.1,
              subst (Linked r.1.0) (append_step ms (p, y) ((q, z) ∷ r.0)) r.1.2,
            ),
            rw e (ap (◌∷◌ z) r.2),
          )
    ]
