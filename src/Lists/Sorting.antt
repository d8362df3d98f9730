-- ===== src/Lists/Sorting.antt =====
-- NachOS-4.0/code/lib/list.cc: SortedList as a mathematical list, of items of any type.
use hcmus_csc10007_operating.Common.{
  ◌≡◌, Bool, true, false, List, [], ◌∷◌, if◌then◌else◌, Bool-cases, inl, inr,
}

-- SortedList::Insert; `before x y` is `compare(x, y) < 0`.
abbrev pub insert_before : {A : Type 0} → (A → A → Bool) → A → List A → List A
insert_before before x [] = x ∷ []
insert_before before x (y ∷ ys) = if before x y then x ∷ (y ∷ ys) else y ∷ insert_before before x ys

module _ {A : Type 0} (before : A → A → Bool) where
  -- No item of the list comes before x.
  abbrev pub NoneBefore : A → List A → Type 0
  NoneBefore x [] = Unit
  NoneBefore x (y ∷ ys) = (before y x ≡ false) × NoneBefore x ys

  abbrev pub Ordered : List A → Type 0
  Ordered [] = Unit
  Ordered (x ∷ xs) = NoneBefore x xs × Ordered xs

-- `compare` orders the items: one of two at most is before the other, and what is not before a
-- second item that is not before a third one is not before that.
pub record IsOrder {A : Type 0} (before : A → A → Bool) : Type 0 where
  pub asym : (x y : A) → before x y ≡ true → before y x ≡ false
  pub trans : (x y z : A) → before y x ≡ false → before z y ≡ false → before z x ≡ false

module _ {A : Type 0} {before : A → A → Bool} (o : IsOrder before) where
  NoneBefore-trans :
      (x y : A) (ys : List A) → before y x ≡ false → NoneBefore before y ys → NoneBefore before x ys
  NoneBefore-trans x y [] h k = tt
  NoneBefore-trans x y (z ∷ ys) h k = (o.trans x y z h k.0, NoneBefore-trans x y ys h k.1)

  NoneBefore-insert :
      (x z : A) (ys : List A)
      → before x z ≡ false
      → NoneBefore before z ys
      → NoneBefore before z (insert_before before x ys)
  NoneBefore-insert x z [] h k = (h, tt)
  NoneBefore-insert x z (y ∷ ys) h k = elim (Bool-cases (before x y)) [
    | inl e ↦ rw e (h, k)
    | inr e ↦ rw e (k.0, NoneBefore-insert x z ys h k.1)
  ]

  pub Ordered-insert :
      (x : A) (ys : List A) → Ordered before ys → Ordered before (insert_before before x ys)
  Ordered-insert x [] h = (tt, tt)
  Ordered-insert x (y ∷ ys) h = elim (Bool-cases (before x y)) [
    | inl e ↦ let k = o.asym x y e in rw e ((k, NoneBefore-trans x y ys k h.0), (h.0, h.1))
    | inr e ↦ rw e (NoneBefore-insert x y ys e h.0, Ordered-insert x ys h.1)
  ]
