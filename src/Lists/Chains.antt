-- ===== src/Lists/Chains.antt =====
-- NachOS-4.0/code/lib/list.cc: the chain of elements that `next` links, and what a write to a cell does to it.
use hcmus_csc10007_operating.Common.{
  ℕ, zero, suc, ◌+◌, ◌<◌, ◌==◌, ◌≡◌, ◌≢◌, refl, sym, ap, ◌∙◌, Bool, false, ◌||◌, Option, none, some,
  assign_at, List, [], ◌∷◌, ◌++◌, length, arith,
}
use hcmus_csc10007_operating.Lists.{Element, Store, done, search_from, is_in_list}

-- The elements of a chain: their addresses with their items.
abbrev pub Nodes : Type 0
Nodes = List (ℕ × ℕ)

abbrev pub items : Nodes → List ℕ
items [] = []
items ((a, x) ∷ ns) = x ∷ items ns

-- The pointer to a chain that goes on with `end`.
abbrev pub link_to : Nodes → Option ℕ → Option ℕ
link_to [] end = end
link_to ((a, x) ∷ ns) end = some a

abbrev pub last_of : Nodes → Option ℕ
last_of [] = none
last_of ((a, x) ∷ []) = some a
last_of (n ∷ (m ∷ ns)) = last_of (m ∷ ns)

abbrev pub Chain : (ℕ → Option Element) → Nodes → Option ℕ → Type 0
Chain c [] end = Unit
Chain c ((a, x) ∷ ns) end =
    (c a ≡ some (record { item = x; next = link_to ns end })) × Chain c ns end

-- No element of the chain stands at the address.
abbrev pub Avoids : ℕ → Nodes → Type 0
Avoids a [] = Unit
Avoids a ((b, x) ∷ ns) = (a ≢ b) × Avoids a ns

abbrev pub Apart : Nodes → Type 0
Apart [] = Unit
Apart ((a, x) ∷ ns) = Avoids a ns × Apart ns

abbrev pub Below : ℕ → Nodes → Type 0
Below k [] = Unit
Below k ((a, x) ∷ ns) = (a < k) × Below k ns

abbrev pub contains : ℕ → List ℕ → Bool
contains x [] = false
contains x (y ∷ ys) = x == y || contains x ys

-- The list object owns the chain from `first` to `last`.
pub record Linked (s : Store) (ns : Nodes) : Type 0 where
  pub first_lem : s.first ≡ link_to ns none
  pub last_lem : s.last ≡ last_of ns
  pub counted : s.num_in_list ≡ length ns
  pub chain : Chain s.cell ns none
  pub apart : Apart ns
  pub below : Below s.fresh ns

pub Chain-write :
    (c : ℕ → Option Element) (a : ℕ) (e : Option Element) (ns : Nodes) (end : Option ℕ)
    → Avoids a ns
    → Chain c ns end
    → Chain (assign_at c a e) ns end
Chain-write c a e [] end h k = tt
Chain-write c a e ((b, x) ∷ ns) end h k = (ground arith, Chain-write c a e ns end h.1 k.1)

pub Below-Avoids : (k : ℕ) (ns : Nodes) → Below k ns → Avoids k ns
Below-Avoids k [] h = tt
Below-Avoids k ((a, x) ∷ ns) h = (λ e. omega arith, Below-Avoids k ns h.1)

pub Below-suc : (k : ℕ) (ns : Nodes) → Below k ns → Below (k + 1) ns
Below-suc k [] h = tt
Below-suc k ((a, x) ∷ ns) h = (omega arith, Below-suc k ns h.1)

pub search_from_lem :
    (f : ℕ) (c : ℕ → Option Element) (x : ℕ) (ns : Nodes)
    → length ns < f
    → Chain c ns none
    → search_from f c x (link_to ns none) ≡ done (contains x (items ns))
unfolding search_from
search_from_lem zero c x ns h k = elim h [ ]
search_from_lem (suc f) c x [] h k = refl
search_from_lem (suc f) c x ((a, y) ∷ ns) h k =
    rw k.0 (ground (arith, search_from_lem f c x ns (omega arith) k.1))

pub is_in_list_lem :
    {s : Store} {ns : Nodes} (x : ℕ) → Linked s ns → is_in_list x s ≡ done (contains x (items ns))
unfolding is_in_list
is_in_list_lem {s} {ns} x v =
    ap (search_from (suc s.num_in_list) s.cell x) v.first_lem
    ∙ search_from_lem (suc s.num_in_list) s.cell x ns (omega (arith, v.counted)) v.chain

-- A chain in two parts, and the write of the pointer between them.
pub Chain-split :
    (c : ℕ → Option Element) (ms ns : Nodes) (end : Option ℕ)
    → Chain c (ms ++ ns) end
    → Chain c ms (link_to ns end) × Chain c ns end
Chain-split c [] ns end h = (tt, h)
Chain-split c ((a, x) ∷ []) ns end h = ((h.0, tt), h.1)
Chain-split c ((a, x) ∷ ((b, y) ∷ ms)) ns end h =
    let r = Chain-split c ((b, y) ∷ ms) ns end h.1 in ((h.0, r.0), r.1)

pub Chain-join :
    (c : ℕ → Option Element) (ms ns : Nodes) (end : Option ℕ)
    → Chain c ms (link_to ns end)
    → Chain c ns end
    → Chain c (ms ++ ns) end
Chain-join c [] ns end h k = k
Chain-join c ((a, x) ∷ []) ns end h k = (h.0, k)
Chain-join c ((a, x) ∷ ((b, y) ∷ ms)) ns end h k = (h.0, Chain-join c ((b, y) ∷ ms) ns end h.1 k)

pub Avoids-append : (a : ℕ) (ms ns : Nodes) → Avoids a ms → Avoids a ns → Avoids a (ms ++ ns)
Avoids-append a [] ns h k = k
Avoids-append a ((b, x) ∷ ms) ns h k = (h.0, Avoids-append a ms ns h.1 k)

pub Avoids-split : (a : ℕ) (ms ns : Nodes) → Avoids a (ms ++ ns) → Avoids a ms × Avoids a ns
Avoids-split a [] ns h = (tt, h)
Avoids-split a ((b, x) ∷ ms) ns h = let r = Avoids-split a ms ns h.1 in ((h.0, r.0), r.1)

pub Below-split : (k : ℕ) (ms ns : Nodes) → Below k (ms ++ ns) → Below k ms × Below k ns
Below-split k [] ns h = (tt, h)
Below-split k ((b, x) ∷ ms) ns h = let r = Below-split k ms ns h.1 in ((h.0, r.0), r.1)

pub Below-append : (k : ℕ) (ms ns : Nodes) → Below k ms → Below k ns → Below k (ms ++ ns)
Below-append k [] ns h l = l
Below-append k ((b, x) ∷ ms) ns h l = (h.0, Below-append k ms ns h.1 l)

-- A new element between two parts of a list whose elements are apart.
pub Apart-insert :
    (ms ns : Nodes) (a x : ℕ) → Apart (ms ++ ns) → Avoids a (ms ++ ns) → Apart (ms ++ (a, x) ∷ ns)
Apart-insert [] ns a x h k = (k, h)
Apart-insert ((b, y) ∷ ms) ns a x h k =
    let r = Avoids-split b ms ns h.0 in
    (Avoids-append b ms ((a, x) ∷ ns) r.0 ((λ e. k.0 (sym e)), r.1), Apart-insert ms ns a x h.1 k.1)

pub Apart-remove :
    (ms ns : Nodes) (a x : ℕ) → Apart (ms ++ (a, x) ∷ ns) → Apart (ms ++ ns) × Avoids a (ms ++ ns)
Apart-remove [] ns a x h = (h.1, h.0)
Apart-remove ((b, y) ∷ ms) ns a x h =
    let r = Avoids-split b ms ((a, x) ∷ ns) h.0 in
    let s = Apart-remove ms ns a x h.1 in
    ((Avoids-append b ms ns r.0 r.1.1, s.0), ((λ e. r.1.0 (sym e)), s.1))

pub length-insert : (ms ns : Nodes) (n : ℕ × ℕ) → length (ms ++ n ∷ ns) ≡ length (ms ++ ns) + 1
length-insert [] ns n = omega arith
length-insert (m ∷ ms) ns n = omega (arith, length-insert ms ns n)

pub items-append : (ms ns : Nodes) → items (ms ++ ns) ≡ items ms ++ items ns
items-append [] ns = refl
items-append ((a, x) ∷ ms) ns = ap (◌∷◌ x) (items-append ms ns)
