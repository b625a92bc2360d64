-- ===== src/Priority/Order.antt =====
-- The order of speeds in the lists of services/arena/include/fightingPit/PriorityOrderList.hh.
use fy_s.Common.{
  ℕ, zero, suc, ◌+◌, ◌≡◌, refl, sym, subst, ap, ◌∙◌, Bool, List, [], ◌∷◌, ◌++◌, arith, count, drop,
}
use fy_s.Common.Int.{ℤ, ◌≤ℤ◌}
use mathlib.Core.List.{reverse, reverse-append}
use fy_s.CommonTypes.{PriorityElem}

-- Every speed is at least `v`.
abbrev pub AtLeast : ℤ → List PriorityElem → Type 0
AtLeast v [] = Unit
AtLeast v (x ∷ xs) = (v ≤ℤ x.speed) × AtLeast v xs

-- Slowest first.
abbrev pub IsSorted : List PriorityElem → Type 0
IsSorted [] = Unit
IsSorted (x ∷ xs) = AtLeast x.speed xs × IsSorted xs

-- The same elements, each as often: every test counts alike.
abbrev pub SameElems : List PriorityElem → List PriorityElem → Type 0
SameElems xs ys = (p : PriorityElem → Bool) → count p xs ≡ count p ys

-- What `std::sort` by `operator<` documents.
pub record SortLaws (sort : List PriorityElem → List PriorityElem) : Type 0 where
  pub sorted : (xs : List PriorityElem) → IsSorted (sort xs)
  pub same : (xs : List PriorityElem) → SameElems (sort xs) xs

-- Every speed is `v`.
abbrev pub AllSpeed : ℤ → List PriorityElem → Type 0
AllSpeed v [] = Unit
AllSpeed v (x ∷ xs) = (x.speed ≡ v) × AllSpeed v xs

pub AllSpeed-append :
    (v : ℤ) (xs ys : List PriorityElem) → AllSpeed v xs → AllSpeed v ys → AllSpeed v (xs ++ ys)
AllSpeed-append v [] ys hx hy = hy
AllSpeed-append v (x ∷ xs) ys hx hy = (hx.0, AllSpeed-append v xs ys hx.1 hy)

pub AllSpeed-split :
    (v : ℤ) (xs ys : List PriorityElem) → AllSpeed v (xs ++ ys) → AllSpeed v xs × AllSpeed v ys
AllSpeed-split v [] ys h = (tt, h)
AllSpeed-split v (x ∷ xs) ys h = let (hx, hy) = AllSpeed-split v xs ys h.1 in ((h.0, hx), hy)

pub AllSpeed-reverse : (v : ℤ) (xs : List PriorityElem) → AllSpeed v xs → AllSpeed v (reverse xs)
AllSpeed-reverse v [] h = tt
AllSpeed-reverse v (x ∷ xs) h =
    subst (AllSpeed v) (sym (reverse-append (x ∷ []) xs))
      (AllSpeed-append v (reverse xs) (x ∷ []) (AllSpeed-reverse v xs h.1) (h.0, tt))

pub AtLeast-drop : (v : ℤ) (n : ℕ) (xs : List PriorityElem) → AtLeast v xs → AtLeast v (drop n xs)
AtLeast-drop v zero xs h = h
AtLeast-drop v (suc n) [] h = tt
AtLeast-drop v (suc n) (x ∷ xs) h = AtLeast-drop v n xs h.1

pub IsSorted-drop : (n : ℕ) (xs : List PriorityElem) → IsSorted xs → IsSorted (drop n xs)
IsSorted-drop zero xs h = h
IsSorted-drop (suc n) [] h = tt
IsSorted-drop (suc n) (x ∷ xs) h = IsSorted-drop n xs h.1

pub AtLeast-append :
    (v : ℤ) (xs ys : List PriorityElem) → AllSpeed v xs → AtLeast v ys → AtLeast v (xs ++ ys)
AtLeast-append v [] ys hx hy = hy
AtLeast-append v (x ∷ xs) ys hx hy = (rw hx.0 (omega arith), AtLeast-append v xs ys hx.1 hy)

pub IsSorted-append :
    (v : ℤ) (xs ys : List PriorityElem)
    → AllSpeed v xs
    → AtLeast v ys
    → IsSorted ys
    → IsSorted (xs ++ ys)
IsSorted-append v [] ys hx hy s = s
IsSorted-append v (x ∷ xs) ys hx hy s =
    (rw hx.0 (AtLeast-append v xs ys hx.1 hy), IsSorted-append v xs ys hx.1 hy s)

pub count-append :
    (p : PriorityElem → Bool) (xs ys : List PriorityElem)
    → count p (xs ++ ys) ≡ count p xs + count p ys
count-append p [] ys = omega arith
count-append p (x ∷ xs) ys = ground (arith, count-append p xs ys)

pub count-reverse :
    (p : PriorityElem → Bool) (xs : List PriorityElem) → count p (reverse xs) ≡ count p xs
count-reverse p [] = refl
count-reverse p (x ∷ xs) =
    ap (count p) (reverse-append (x ∷ []) xs)
    ∙ count-append p (reverse xs) (x ∷ [])
    ∙ ground (arith, count-reverse p xs)
