-- ===== src/Prelude/Distinct.antt =====
-- Lists without repetition, and predicates on every element of a list.
use mathlib.Core.Path.{sym}
use mathlib.Core.Logic.{◌≢◌}
use mathlib.Core.List.{List, [], ◌∷◌, ◌++◌}
use card_machine.Prelude.{All}

module _ {ℓ} {A : Type ℓ} where
  -- No element occurs twice.
  abbrev pub Distinct : List A → Type ℓ
  Distinct [] = Unit
  Distinct (x ∷ xs) = All (λ y. y ≢ x) xs × Distinct xs

  pub All-map {κ μ} :
      (P : A → Type κ) (Q : A → Type μ) (xs : List A) → ((x : A) → P x → Q x) → All P xs → All Q xs
  All-map P Q [] f h = tt
  All-map P Q (x ∷ xs) f (here, rest) = (f x here, All-map P Q xs f rest)

  -- A predicate that holds where two others do.
  pub All-both {κ μ ν} :
      (P : A → Type κ) (Q : A → Type μ) (R : A → Type ν) (xs : List A)
      → ((x : A) → P x → Q x → R x)
      → All P xs
      → All Q xs
      → All R xs
  All-both P Q R [] f h k = tt
  All-both P Q R (x ∷ xs) f (h, hs) (k, ks) = (f x h k, All-both P Q R xs f hs ks)

  pub All-snoc {κ} : (P : A → Type κ) (xs : List A) (y : A) → All P xs → P y → All P (xs ++ y ∷ [])
  All-snoc P [] y h last = (last, tt)
  All-snoc P (x ∷ xs) y (here, rest) last = (here, All-snoc P xs y rest last)

  pub All-without {κ} :
      (P : A → Type κ) (xs : List A) (y : A) (ys : List A) → All P (xs ++ y ∷ ys) → All P (xs ++ ys)
  All-without P [] y ys (here, rest) = rest
  All-without P (x ∷ xs) y ys (here, rest) = (here, All-without P xs y ys rest)

  All_middle {κ} : (P : A → Type κ) (xs : List A) (y : A) (ys : List A) → All P (xs ++ y ∷ ys) → P y
  All_middle P [] y ys (here, rest) = here
  All_middle P (x ∷ xs) y ys (here, rest) = All_middle P xs y ys rest

  pub Distinct-snoc :
      (xs : List A) (y : A) → Distinct xs → All (λ x. x ≢ y) xs → Distinct (xs ++ y ∷ [])
  Distinct-snoc [] y d h = (tt, tt)
  Distinct-snoc (x ∷ xs) y (new, d) (other, h) =
      (All-snoc (λ z. z ≢ x) xs y new (λ e. other (sym e)), Distinct-snoc xs y d h)

  pub Distinct-without :
      (xs : List A) (y : A) (ys : List A)
      → Distinct (xs ++ y ∷ ys)
      → Distinct (xs ++ ys) × All (λ x. x ≢ y) (xs ++ ys)
  Distinct-without [] y ys (new, d) = (d, new)
  Distinct-without (x ∷ xs) y ys (new, d) =
      let (d', other) = Distinct-without xs y ys d in
      (
        (All-without (λ z. z ≢ x) xs y ys new, d'),
        ((λ e. All_middle (λ z. z ≢ x) xs y ys new (sym e)), other),
      )
