-- ===== src/Algorithm/Best.antt =====
-- What `find_most_suitable` of services/common/include/algorithm/algorithm.hh returns.
use fy_s.Common.{
  Bool, true, false, ◌≡◌, refl, ◌⊎◌, inl, inr, some, List, [], ◌∷◌, subst, ap, sym, ◌∙◌, ◌↔◌,
  some_eq, if◌then◌else◌, Bool-cases,
}
use mathlib.Core.Option.{none}
use mathlib.Core.List.{Memᴰ}
use fy_s.Algorithm.{find_most_suitable_from, find_most_suitable}

module _ {ℓ} {A : Type ℓ} (comp : A → A → Bool) where
  -- No element of the list is more suitable than `s`.
  abbrev pub IsBest : A → List A → Type 0
  IsBest s [] = Unit
  IsBest s (x ∷ xs) = (comp s x ≡ false) × IsBest s xs

  -- What is asked of a comparator: a strict order.
  pub record IsOrder : Type ℓ where
    pub irreflexive : (x : A) → comp x x ≡ false
    pub transitive : (x y z : A) → comp x y ≡ true → comp y z ≡ true → comp x z ≡ true

  -- What the loop selects after one element.
  abbrev next : A → A → A
  next s x = if comp s x then x else s

  from-mem :
      (xs : List A) (s : A)
      → (find_most_suitable_from xs comp s ≡ s) ⊎ Memᴰ (find_most_suitable_from xs comp s) xs
  unfolding find_most_suitable_from
  from-mem [] s = inl refl
  from-mem (x ∷ xs) s = elim (from-mem xs (next s x)) [
    | inr m ↦ inr (Memᴰ.tail m)
    | inl e ↦ elim (Bool-cases (comp s x)) [
      | inl t ↦ inr (Memᴰ.head (e ∙ rw t))
      | inr f ↦ inl (e ∙ rw f)
    ]
  ]

  pub find_most_suitable-mem :
      (xs : List A) (s : A) → find_most_suitable xs comp ≡ some s → Memᴰ s xs
  unfolding find_most_suitable
  find_most_suitable-mem [] s e = absurd (cc)
  find_most_suitable-mem (x ∷ xs) s e = elim (from-mem (x ∷ xs) x) [
    | inl h ↦ Memᴰ.head (some_eq (sym e ∙ ap some h))
    | inr m ↦ subst (λ r. Memᴰ r (x ∷ xs)) (some_eq e) m
  ]

  module _ (o : IsOrder) where
    IsBest-next : (ys : List A) (s x : A) → IsBest s ys → IsBest (next s x) ys
    IsBest-next [] s x b = tt
    IsBest-next (y ∷ ys) s x b = (first (Bool-cases (comp s x)), IsBest-next ys s x b.1)
      where
        first : (comp s x ≡ true) ⊎ (comp s x ≡ false) → comp (next s x) y ≡ false
        first (inl t) = rw t (elim (Bool-cases (comp x y)) [
          | inl u ↦ absurd (cc (o.transitive s x y t u, b.0))
          | inr f ↦ f
        ])
        first (inr f) = rw f b.0

    IsBest-from_seen :
        (xs : List A) (s : A) (ys : List A)
        → IsBest s ys
        → IsBest (find_most_suitable_from xs comp s) ys
    unfolding find_most_suitable_from
    IsBest-from_seen [] s ys b = b
    IsBest-from_seen (x ∷ xs) s ys b = IsBest-from_seen xs (next s x) ys (IsBest-next ys s x b)

    next-best : (s x : A) → comp (next s x) x ≡ false
    next-best s x = elim (Bool-cases (comp s x)) [ inl t ↦ rw t (o.irreflexive x) | inr f ↦ rw f f ]

    IsBest-from : (xs : List A) (s : A) → IsBest (find_most_suitable_from xs comp s) xs
    unfolding find_most_suitable_from
    IsBest-from [] s = tt
    IsBest-from (x ∷ xs) s =
        ((IsBest-from_seen xs (next s x) (x ∷ []) (next-best s x, tt)).0, IsBest-from xs (next s x))

    -- Under a strict order `find_most_suitable` returns nothing exactly for the empty range; what it
    -- returns is an element of the range, and no element of the range is more suitable.
    pub find_most_suitable-IsBest :
        (xs : List A)
        → ((find_most_suitable xs comp ≡ none) ↔ (xs ≡ []))
          × ((s : A) → find_most_suitable xs comp ≡ some s → Memᴰ s xs × IsBest s xs)
    unfolding find_most_suitable
    find_most_suitable-IsBest [] = ((λ e. refl, λ e. refl), λ s e. absurd (cc))
    find_most_suitable-IsBest (x ∷ xs) = (
      (λ e. absurd (cc), λ e. absurd (cc)),
      λ s e. (
        find_most_suitable-mem (x ∷ xs) s e,
        subst (λ r. IsBest r (x ∷ xs)) (some_eq e) (IsBest-from (x ∷ xs) x),
      ),
    )

  -- A comparator that refuses to leave the first element: the first element is returned.
  pub find_most_suitable-stuck :
      (x : A) (xs : List A)
      → ((y : A) → comp x y ≡ false)
      → find_most_suitable (x ∷ xs) comp ≡ some x
  unfolding find_most_suitable find_most_suitable_from
  find_most_suitable-stuck x xs never = ap some (stays (x ∷ xs))
    where
      stays : (ys : List A) → find_most_suitable_from ys comp x ≡ x
      stays [] = refl
      stays (y ∷ ys) = rw (never y) (stays ys)
