-- ===== src/Worker/Values.antt =====
-- What holds of every pit, or of every entry, of the tables of
-- services/arena/include/network/WorkerService.hh.
use fy_s.Common.{
  ℕ, ◌≡◌, sym, subst, Bool, List, [], ◌∷◌, some, filter, Bool-cases, inl, inr, some_eq, ◌==◌,
}
use mathlib.Core.List.{Memᴰ}
use fy_s.Worker.{Table, lookup, assign}

-- A property of every element, and of every value of a table.
abbrev pub Each {ℓ} : {A : Type ℓ} → (A → Type 0) → List A → Type 0
Each P [] = Unit
Each P (x ∷ xs) = P x × Each P xs

module _ {ℓ} {A : Type ℓ} (P : A → Type 0) where
  abbrev pub EachValue : Table A → Type 0
  EachValue table = Each (λ (e : ℕ × A). P e.1) table

  pub lookup-EachValue :
      (table : Table A) (key : ℕ) (a : A) → EachValue table → lookup table key ≡ some a → P a
  unfolding lookup
  lookup-EachValue [] key a h e = absurd (cc)
  lookup-EachValue ((k, b) ∷ rest) key a h e = elim (Bool-cases (k == key)) [
    | inl t ↦ subst P (some_eq (rw t at e)) h.0
    | inr f ↦ lookup-EachValue rest key a h.1 (rw f at e)
  ]

  pub assign-EachValue :
      (table : Table A) (key : ℕ) (a : A) → EachValue table → P a → EachValue (assign table key a)
  unfolding assign
  assign-EachValue [] key a h p = (p, tt)
  assign-EachValue ((k, b) ∷ rest) key a h p = elim (Bool-cases (k == key)) [
    | inl t ↦ rw t (p, h.1)
    | inr f ↦ rw f (h.0, assign-EachValue rest key a h.1 p)
  ]

pub Each-implies {ℓ} :
    {A : Type ℓ} (P Q : A → Type 0) (xs : List A) → ((x : A) → P x → Q x) → Each P xs → Each Q xs
Each-implies P Q [] f h = tt
Each-implies P Q (x ∷ xs) f h = (f x h.0, Each-implies P Q xs f h.1)

pub Each-filter {ℓ} :
    {A : Type ℓ} (P : A → Type 0) (test : A → Bool) (xs : List A)
    → Each P xs
    → Each P (filter test xs)
Each-filter P test [] h = tt
Each-filter P test (x ∷ xs) h = elim (Bool-cases (test x)) [
  | inl t ↦ rw t (h.0, Each-filter P test xs h.1)
  | inr f ↦ rw f (Each-filter P test xs h.1)
]

pub Each-Mem {ℓ} : {A : Type ℓ} (P : A → Type 0) (xs : List A) (x : A) → Each P xs → Memᴰ x xs → P x
Each-Mem P [] x h m = elim m [ ]
Each-Mem P (y ∷ ys) x h m = elim m [
  | Memᴰ.head e ↦ subst P (sym e) h.0
  | Memᴰ.tail later ↦ Each-Mem P ys x h.1 later
]
