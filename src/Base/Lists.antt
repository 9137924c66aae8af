-- ===== src/Base/Lists.antt =====
-- Lists over the native numbers, and a `HashSet<u32>` as a list.
use Prim.Native.Nat.{ℕ, zero, suc, ◌+◌}
use mathlib.Core.Path.{◌≡◌, refl}
use mathlib.Core.Bool.{Bool, true, false, not, ◌||◌, ◌&&◌}
use mathlib.Core.Logic.{◌⊎◌, inl, inr}
use mathlib.Core.List.{List, [], ◌∷◌, ◌++◌}
use native.Mathlib.Omega.{arith}
use t2_bus.Base.Tests.{◌==◌, ==_iff, if◌then◌else◌}

module _ {ℓ} {A : Type ℓ} where
  abbrev pub length : List A → ℕ
  length [] = 0
  length (x ∷ xs) = suc (length xs)

  abbrev pub take : ℕ → List A → List A
  take zero xs = []
  take (suc n) [] = []
  take (suc n) (x ∷ xs) = x ∷ take n xs

  abbrev pub drop : ℕ → List A → List A
  drop zero xs = xs
  drop (suc n) [] = []
  drop (suc n) (x ∷ xs) = drop n xs

  pub length-append : (xs ys : List A) → length (xs ++ ys) ≡ length xs + length ys
  length-append [] ys = omega arith
  length-append (x ∷ xs) ys = omega (arith, length-append xs ys)

-- Membership with the place kept.
abbrev pub Member : {A : Type 0} → A → List A → Type 0
Member x [] = ⊥
Member x (y ∷ ys) = (x ≡ y) ⊎ Member x ys

pub Member-append :
    {A : Type 0} (x : A) (xs : List A) (y : A) → Member x (xs ++ y ∷ []) → Member x xs ⊎ (x ≡ y)
Member-append x [] y (inl e) = inr e
Member-append x [] y (inr m) = elim m [ ]
Member-append x (z ∷ xs) y (inl e) = inl (inl e)
Member-append x (z ∷ xs) y (inr m) = elim (Member-append x xs y m) [
  | inl k ↦ inl (inr k)
  | inr e ↦ inr e
]

pub Member-append_left :
    {A : Type 0} (x : A) (xs : List A) (y : A) → Member x xs → Member x (xs ++ y ∷ [])
Member-append_left x [] y m = elim m [ ]
Member-append_left x (z ∷ xs) y (inl e) = inl e
Member-append_left x (z ∷ xs) y (inr m) = inr (Member-append_left x xs y m)

pub Member-append_last : {A : Type 0} (xs : List A) (y : A) → Member y (xs ++ y ∷ [])
Member-append_last [] y = inl refl
Member-append_last (z ∷ xs) y = inr (Member-append_last xs y)

abbrev pub contains : ℕ → List ℕ → Bool
contains x [] = false
contains x (y ∷ ys) = x == y || contains x ys

-- `HashSet::insert`
unfoldable pub insert : ℕ → List ℕ → List ℕ
insert x ys = if contains x ys then ys else x ∷ ys

-- `HashSet::remove`
unfoldable pub remove : ℕ → List ℕ → List ℕ
remove x [] = []
remove x (y ∷ ys) = let rest = remove x ys in if x == y then rest else y ∷ rest

-- `HashSet::extend`
unfoldable pub extend : List ℕ → List ℕ → List ℕ
unfolding insert
extend xs [] = xs
extend xs (y ∷ ys) = extend (insert y xs) ys

abbrev pub Distinct : List ℕ → Type 0
Distinct [] = Unit
Distinct (x ∷ xs) = (contains x xs ≡ false) × Distinct xs

pub contains-insert : (x y : ℕ) (ys : List ℕ) → contains x (insert y ys) ≡ (x == y || contains x ys)
unfolding insert
contains-insert x y ys = ground arith

pub contains-remove :
    (x y : ℕ) (ys : List ℕ) → contains x (remove y ys) ≡ (not (x == y) && contains x ys)
unfolding remove
contains-remove x y [] = ground arith
contains-remove x y (z ∷ ys) = ground (arith, contains-remove x y ys)

pub contains-extend :
    (x : ℕ) (xs ys : List ℕ) → contains x (extend xs ys) ≡ (contains x xs || contains x ys)
unfolding extend
contains-extend x xs [] = ground arith
contains-extend x xs (y ∷ ys) =
    ground (arith, contains-extend x (insert y xs) ys, contains-insert x y xs)

pub contains-append :
    (x : ℕ) (xs ys : List ℕ) → contains x (xs ++ ys) ≡ (contains x xs || contains x ys)
contains-append x [] ys = refl
contains-append x (y ∷ xs) ys = ground (arith, contains-append x xs ys)

pub Distinct-append_left : (xs ys : List ℕ) → Distinct (xs ++ ys) → Distinct xs
Distinct-append_left [] ys d = tt
Distinct-append_left (x ∷ xs) ys d =
    (ground (arith, contains-append x xs ys, d.0), Distinct-append_left xs ys d.1)

-- The two sides of a list without repetitions have nothing in common.
pub Distinct-append_disjoint :
    (x : ℕ) (xs ys : List ℕ) → Distinct (xs ++ ys) → contains x ys ≡ true → contains x xs ≡ false
Distinct-append_disjoint x [] ys d m = refl
Distinct-append_disjoint x (y ∷ xs) ys d m =
    ground
      (arith, contains-append y xs ys, d.0, m, ==_iff x y, Distinct-append_disjoint x xs ys d.1 m)

pub insert-Distinct : (x : ℕ) (ys : List ℕ) → Distinct ys → Distinct (insert x ys)
unfolding insert
insert-Distinct x ys d = ground arith

pub remove-Distinct : (x : ℕ) (ys : List ℕ) → Distinct ys → Distinct (remove x ys)
unfolding remove
remove-Distinct x [] d = tt
remove-Distinct x (y ∷ ys) d = ground (arith, remove-Distinct x ys, contains-remove y x ys)

pub extend-Distinct : (xs ys : List ℕ) → Distinct xs → Distinct (extend xs ys)
unfolding extend
extend-Distinct xs [] d = d
extend-Distinct xs (y ∷ ys) d = extend-Distinct (insert y xs) ys (insert-Distinct y xs d)
