-- ===== src/Common/Lists.antt =====
-- Lists measured by native numbers, and the loop that pushes what each round yields.
use Prim.Native.Nat.{ℕ, zero, suc, ◌+◌, ◌≤◌}
use mathlib.Core.Path.{◌≡◌, refl, subst, ap}
use mathlib.Core.Logic.{◌⊎◌, inl, inr}
use mathlib.Core.Bool.{Bool, true, false}
use mathlib.Core.List.{List, [], ◌∷◌, ◌++◌}
use mathlib.Core.Option.{Option, none, some}
use native.Mathlib.Omega.{arith}

module _ {ℓ} {A : Type ℓ} where
  abbrev pub length : List A → ℕ
  length [] = 0
  length (x ∷ xs) = suc (length xs)

  abbrev pub get_elem? : List A → ℕ → Option A
  get_elem? [] i = none
  get_elem? (x ∷ xs) zero = some x
  get_elem? (x ∷ xs) (suc i) = get_elem? xs i

  abbrev pub take : ℕ → List A → List A
  take zero xs = []
  take (suc n) [] = []
  take (suc n) (x ∷ xs) = x ∷ take n xs

  abbrev pub drop : ℕ → List A → List A
  drop zero xs = xs
  drop (suc n) [] = []
  drop (suc n) (x ∷ xs) = drop n xs

  abbrev pub is_empty : List A → Bool
  is_empty [] = true
  is_empty (x ∷ xs) = false

  abbrev pub All {κ} : (A → Type κ) → List A → Type κ
  All P [] = Unit
  All P (x ∷ xs) = P x × All P xs

module _ {ℓ} {A : Type ℓ} where
  pub length-append : (xs ys : List A) → length (xs ++ ys) ≡ length xs + length ys
  length-append [] ys = omega arith
  length-append (x ∷ xs) ys = omega (arith, length-append xs ys)

  pub append-eq-nil : (xs ys : List A) → xs ++ ys ≡ [] → (xs ≡ []) × (ys ≡ [])
  append-eq-nil [] ys h = (refl, h)
  append-eq-nil (x ∷ xs) ys h = cc

  pub is_empty-nil : (xs : List A) → is_empty xs ≡ true → xs ≡ []
  is_empty-nil [] h = refl
  is_empty-nil (x ∷ xs) h = cc

  pub drop-length : (xs : List A) → drop (length xs) xs ≡ []
  drop-length [] = refl
  drop-length (x ∷ xs) = drop-length xs

module _ {ℓ} {A : Type ℓ} where
  pub take-append : (xs ys : List A) → take (length xs) (xs ++ ys) ≡ xs
  take-append [] ys = refl
  take-append (x ∷ xs) ys = ap (λ l. x ∷ l) (take-append xs ys)

  pub drop-append : (xs ys : List A) → drop (length xs) (xs ++ ys) ≡ ys
  drop-append [] ys = refl
  drop-append (x ∷ xs) ys = drop-append xs ys

  pub length-take : (n : ℕ) (xs : List A) → n ≤ length xs → length (take n xs) ≡ n
  length-take zero xs h = refl
  length-take (suc n) [] h = absurd (omega arith)
  length-take (suc n) (x ∷ xs) h = ap suc (length-take n xs (omega arith))

module _ {ℓ κ} {A : Type ℓ} {B : Type κ} where
  -- `for x in xs { out.extend(f(x)) }`
  abbrev pub for_each : List A → (A → List B) → List B
  for_each [] f = []
  for_each (x ∷ xs) f = f x ++ for_each xs f

  pub for_each-eq-nil : (xs : List A) (f : A → List B) → ((x : A) → f x ≡ []) → for_each xs f ≡ []
  for_each-eq-nil [] f h = refl
  for_each-eq-nil (x ∷ xs) f h = cc (h x, for_each-eq-nil xs f h)

-- `x` is an item of the list.
abbrev pub In : {A : Type 0} → A → List A → Type 0
In x [] = ⊥
In x (y ∷ ys) = (x ≡ y) ⊎ In x ys

module _ {A : Type 0} where
  pub In-append_left : (x : A) (xs ys : List A) → In x xs → In x (xs ++ ys)
  In-append_left x [] ys h = absurd h
  In-append_left x (z ∷ xs) ys (inl e) = inl e
  In-append_left x (z ∷ xs) ys (inr h) = inr (In-append_left x xs ys h)

  pub In-append_right : (x : A) (xs ys : List A) → In x ys → In x (xs ++ ys)
  In-append_right x [] ys h = h
  In-append_right x (z ∷ xs) ys h = inr (In-append_right x xs ys h)

  pub In-append_cases : (x : A) (xs ys : List A) → In x (xs ++ ys) → In x xs ⊎ In x ys
  In-append_cases x [] ys h = inr h
  In-append_cases x (z ∷ xs) ys (inl e) = inl (inl e)
  In-append_cases x (z ∷ xs) ys (inr h) = elim (In-append_cases x xs ys h) [
    | inl l ↦ inl (inr l)
    | inr r ↦ inr r
  ]

module _ {A B : Type 0} where
  pub In-for_each :
      (xs : List A) (f : A → List B) (x : A) (y : B) → In x xs → In y (f x) → In y (for_each xs f)
  In-for_each [] f x y h hy = absurd h
  In-for_each (z ∷ xs) f x y (inl e) hy =
      In-append_left y (f z) (for_each xs f) (subst (λ w. In y (f w)) e hy)
  In-for_each (z ∷ xs) f x y (inr h) hy =
      In-append_right y (f z) (for_each xs f) (In-for_each xs f x y h hy)

  pub In-for_each_cases :
      (xs : List A) (f : A → List B) (y : B) → In y (for_each xs f) → (x : A) × In x xs × In y (f x)
  In-for_each_cases [] f y h = absurd h
  In-for_each_cases (z ∷ xs) f y h = elim (In-append_cases y (f z) (for_each xs f) h) [
    | inl here ↦ (z, inl refl, here)
    | inr later ↦ let (x, hx, hy) = In-for_each_cases xs f y later in (x, inr hx, hy)
  ]
