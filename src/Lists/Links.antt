-- ===== src/Lists/Links.antt =====
-- NachOS-4.0/code/lib/list.cc: what the writes of `next`, `first` and `last` make of a list's chain.
use hcmus_csc10007_operating.Common.{
  ℕ, ◌+◌, ◌<◌, ◌≡◌, ◌⊎◌, inl, inr, refl, sym, ap, ◌∙◌, Option, none, some, assign_at, [], ◌∷◌, ◌++◌,
  length, arith,
}
use hcmus_csc10007_operating.Lists.{done, Element, Store, new_element, set_next, put_only, count_up}
use hcmus_csc10007_operating.Lists.Chains.{
  Nodes, link_to, last_of, Chain, Avoids, Apart, Linked, Chain-write, Below-Avoids, Below-suc,
  Chain-split, Chain-join, Avoids-append, Avoids-split, Below-split, Below-append, Apart-remove,
}

-- A list, with an element of its heap that is not yet in it.
pub record Ready (t : Store) (a x : ℕ) (ns : Nodes) : Type 0 where
  pub linked : Linked t ns
  pub made : t.cell a ≡ some (record { item = x; next = none })
  pub avoids : Avoids a ns
  pub in_heap : a < t.fresh

pub new_element-Ready :
    {s : Store} {ns : Nodes} (x : ℕ) → Linked s ns → Ready (new_element x s) s.fresh x ns
new_element-Ready {s} {ns} x v = record {
  linked = record {
    first_lem = v.first_lem;
    last_lem = v.last_lem;
    counted = v.counted;
    chain = Chain-write s.cell s.fresh _ ns none (Below-Avoids s.fresh ns v.below) v.chain;
    apart = v.apart;
    below = Below-suc s.fresh ns v.below;
  };
  made = ground arith;
  avoids = Below-Avoids s.fresh ns v.below;
  in_heap = omega arith;
}

abbrev pub relinked : Store → ℕ → Element → Option ℕ → Store
relinked t p e q = record t {
  cell = assign_at t.cell p (some (record { item = e.item; next = q }));
}

pub set_next_lem :
    (t : Store) (p : ℕ) (q : Option ℕ) {e : Element}
    → t.cell p ≡ some e
    → set_next (some p) q t ≡ done (relinked t p e q)
unfolding set_next
set_next_lem t p q h = ground arith

pub put_only-Linked :
    {t : Store} {a x : ℕ} → Ready t a x [] → Linked (count_up (put_only a t)) ((a, x) ∷ [])
put_only-Linked r = record {
  first_lem = refl;
  last_lem = refl;
  counted = omega (arith, r.linked.counted);
  chain = (r.made, tt);
  apart = (tt, tt);
  below = (r.in_heap, tt);
}

pub last_of-cons : (n m : ℕ × ℕ) (ns : Nodes) → last_of (n ∷ (m ∷ ns)) ≡ last_of (m ∷ ns)
last_of-cons n m ns = refl

pub push_front-Linked :
    {t : Store} {a x : ℕ} (n : ℕ × ℕ) (ns : Nodes) (e : Element)
    → e.item ≡ x
    → Ready t a x (n ∷ ns)
    → Linked (count_up (record (relinked t a e t.first) { first = some a })) ((a, x) ∷ (n ∷ ns))
push_front-Linked {t} {a} {x} n ns e h r = record {
  first_lem = refl;
  last_lem = r.linked.last_lem;
  counted = omega (arith, r.linked.counted);
  chain = (
    ground (arith, r.linked.first_lem),
    Chain-write t.cell a _ (n ∷ ns) none r.avoids r.linked.chain,
  );
  apart = (r.avoids, r.linked.apart);
  below = (r.in_heap, r.linked.below);
}

pub last_of-append :
    (ms : Nodes) (n : ℕ × ℕ) (ns : Nodes) → last_of (ms ++ n ∷ ns) ≡ last_of (n ∷ ns)
last_of-append [] n ns = refl
last_of-append (m ∷ []) n ns = refl
last_of-append (m ∷ (m' ∷ ms)) n ns = last_of-append (m' ∷ ms) n ns

pub link_to-append :
    (ms : Nodes) (p y : ℕ) (ns ns' : Nodes)
    → link_to (ms ++ (p, y) ∷ ns) none ≡ link_to (ms ++ (p, y) ∷ ns') none
link_to-append [] p y ns ns' = refl
link_to-append (m ∷ ms) p y ns ns' = refl

pub cell_at :
    (c : ℕ → Option Element) (ms : Nodes) (p y : ℕ) (ns : Nodes)
    → Chain c (ms ++ (p, y) ∷ ns) none
    → c p ≡ some (record { item = y; next = link_to ns none })
cell_at c ms p y ns k = (Chain-split c ms ((p, y) ∷ ns) none k).1.0

-- The pointer of one element is turned to another chain that the write leaves alone.
pub Chain-relink :
    (c : ℕ → Option Element) (ms : Nodes) (p y : ℕ) (ns ns' : Nodes) (q : Option ℕ)
    → Apart (ms ++ (p, y) ∷ ns)
    → Chain c (ms ++ (p, y) ∷ ns) none
    → Avoids p ns'
    → Chain c ns' none
    → q ≡ link_to ns' none
    → Chain (assign_at c p (some (record { item = y; next = q }))) (ms ++ (p, y) ∷ ns') none
Chain-relink c ms p y ns ns' q h k l k' e =
    let apart = (Apart-remove ms ns p y h).1 in
    Chain-join _ ms ((p, y) ∷ ns') none
      (Chain-write c p _ ms (some p) (Avoids-split p ms ns apart).0
        (Chain-split c ms ((p, y) ∷ ns) none k).0)
      (ground (arith, e), Chain-write c p _ ns' none l k')

Apart-after :
    (ms : Nodes) (p y : ℕ) (ns : Nodes) (a x : ℕ)
    → Apart (ms ++ (p, y) ∷ ns)
    → Avoids a (ms ++ (p, y) ∷ ns)
    → Apart (ms ++ (p, y) ∷ ((a, x) ∷ ns))
Apart-after [] p y ns a x h k = (((λ e. k.0 (sym e)), h.0), (k.1, h.1))
Apart-after ((b, z) ∷ ms) p y ns a x h k =
    let r = Avoids-split b ms ((p, y) ∷ ns) h.0 in
    (
      Avoids-append b ms ((p, y) ∷ ((a, x) ∷ ns)) r.0 (r.1.0, ((λ e. k.0 (sym e)), r.1.1)),
      Apart-after ms p y ns a x h.1 k.1,
    )

pub length-after :
    (ms : Nodes) (n m : ℕ × ℕ) (ns : Nodes)
    → length (ms ++ n ∷ (m ∷ ns)) ≡ length (ms ++ n ∷ ns) + 1
length-after [] n m ns = omega arith
length-after (l ∷ ms) n m ns = omega (arith, length-after ms n m ns)

-- The new element goes after the element p, and before an element that is there.
pub push_after-Linked :
    {t : Store} {a x : ℕ} (ms : Nodes) (p y : ℕ) (n : ℕ × ℕ) (ns : Nodes)
    → Ready t a x (ms ++ (p, y) ∷ (n ∷ ns))
    → Linked
        (count_up (
          relinked
            (relinked t a (record { item = x; next = none }) (link_to (n ∷ ns) none))
            p
            (record { item = y; next = link_to (n ∷ ns) none })
            (some a)))
        (ms ++ (p, y) ∷ ((a, x) ∷ (n ∷ ns)))
push_after-Linked {t} {a} {x} ms p y n ns r =
    let v = r.linked in
    let apart = Apart-remove ms (n ∷ ns) p y v.apart in
    let p_apart = Avoids-split p ms (n ∷ ns) apart.1 in
    let a_apart = Avoids-split a ms ((p, y) ∷ (n ∷ ns)) r.avoids in
    let low = Below-split t.fresh ms ((p, y) ∷ (n ∷ ns)) v.below in
    let c = assign_at t.cell a (some (record { item = x; next = link_to (n ∷ ns) none })) in
    let k =
      Chain-write t.cell a (some (record { item = x; next = link_to (n ∷ ns) none }))
        (ms ++ (p, y) ∷ (n ∷ ns)) none r.avoids v.chain in
    record {
      first_lem = v.first_lem ∙ link_to-append ms p y (n ∷ ns) ((a, x) ∷ (n ∷ ns));
      last_lem =
          v.last_lem
          ∙ last_of-append ms (p, y) (n ∷ ns)
          ∙ sym (last_of-append ms (p, y) ((a, x) ∷ (n ∷ ns)));
      counted = omega (arith, v.counted, length-after ms (p, y) (a, x) (n ∷ ns));
      chain =
          Chain-relink c ms p y (n ∷ ns) ((a, x) ∷ (n ∷ ns)) (some a) v.apart k
            ((λ e. a_apart.1.0 (sym e)), p_apart.1)
            (ground arith, (Chain-split c ms ((p, y) ∷ (n ∷ ns)) none k).1.1) refl;
      apart = Apart-after ms p y (n ∷ ns) a x v.apart r.avoids;
      below = Below-append t.fresh ms _ low.0 (low.1.0, (r.in_heap, low.1.1));
    }

-- The new element goes after the last one.
pub push_back-Linked :
    {t : Store} {a x : ℕ} (ms : Nodes) (p y : ℕ)
    → Ready t a x (ms ++ (p, y) ∷ [])
    → Linked
        (count_up
          (record (relinked t p (record { item = y; next = none }) (some a)) { last = some a }))
        (ms ++ (p, y) ∷ ((a, x) ∷ []))
push_back-Linked {t} {a} {x} ms p y r =
    let v = r.linked in
    let a_apart = Avoids-split a ms ((p, y) ∷ []) r.avoids in
    let low = Below-split t.fresh ms ((p, y) ∷ []) v.below in
    record {
      first_lem = v.first_lem ∙ link_to-append ms p y [] ((a, x) ∷ []);
      last_lem = sym (last_of-append ms (p, y) ((a, x) ∷ []));
      counted = omega (arith, v.counted, length-after ms (p, y) (a, x) []);
      chain =
          Chain-relink t.cell ms p y [] ((a, x) ∷ []) (some a) v.apart v.chain
            ((λ e. a_apart.1.0 (sym e)), tt) (r.made, tt) refl;
      apart = Apart-after ms p y [] a x v.apart r.avoids;
      below = Below-append t.fresh ms _ low.0 (low.1.0, (r.in_heap, tt));
    }

-- A list has no element or a last one.
pub Nodes-last : (ns : Nodes) → (ns ≡ []) ⊎ ((ms : Nodes) × (n : ℕ × ℕ) × (ns ≡ ms ++ n ∷ []))
Nodes-last [] = inl refl
Nodes-last (n ∷ ns) = elim (Nodes-last ns) [
  | inl e ↦ inr ([], n, ap (◌∷◌ n) e)
  | inr q ↦ inr ((n ∷ q.0), q.1, ap (◌∷◌ n) q.2)
]
