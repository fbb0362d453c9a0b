-- ===== src/Base/Occurrences.antt =====
-- How often a number is in a list, and how often in its image under a function.
use Prim.Native.Nat.{ℕ, ◌+◌, ◌<◌}
use mathlib.Core.Path.{◌≡◌, refl}
use mathlib.Core.Logic.{◌≢◌, inl, inr}
use mathlib.Core.List.{List, [], ◌∷◌}
use native.Mathlib.Omega.{arith}
use timer_and_callback.Base.Tests.{◌==◌, Bool-cases}
use timer_and_callback.Base.Members.{without}
use timer_and_callback.Base.Slots.{one_if_eq, occurrences}

abbrev pub images {ℓ} : {A : Type ℓ} → (A → ℕ) → List A → List ℕ
images f [] = []
images f (x ∷ xs) = f x ∷ images f xs

occurrences-without :
    (x p : ℕ) (ys : List ℕ)
    → 0 < occurrences x ys
    → occurrences p (without x ys) + one_if_eq x p ≡ occurrences p ys
occurrences-without x p [] h = absurd (omega arith)
occurrences-without x p (y ∷ ys) h = ground (arith, occurrences-without x p ys)

image-without :
    (f : ℕ → ℕ) (x c : ℕ) (ys : List ℕ)
    → 0 < occurrences x ys
    → occurrences c (images f (without x ys)) + one_if_eq (f x) c ≡ occurrences c (images f ys)
image-without f x c [] h = absurd (omega arith)
image-without f x c (y ∷ ys) h = ground (arith, image-without f x c ys)

-- Lists with the same numbers, each as often, have images with the same numbers, each as often.
pub images_same :
    (f : ℕ → ℕ) (xs ys : List ℕ)
    → ((p : ℕ) → occurrences p xs ≡ occurrences p ys)
    → (c : ℕ) → occurrences c (images f xs) ≡ occurrences c (images f ys)
images_same f [] [] same c = refl
images_same f [] (y ∷ ys) same c = absurd (ground (arith, same y))
images_same f (x ∷ xs) ys same c =
    let some_there : 0 < occurrences x ys = ground (arith, same x) in
    let rest =
      images_same f xs (without x ys)
        (λ p. omega (arith, same p, occurrences-without x p ys some_there)) c in
    omega (arith, rest, image-without f x c ys some_there)

pub image_pos :
    (f : ℕ → ℕ) (p : ℕ) (xs : List ℕ) → 0 < occurrences p xs → 0 < occurrences (f p) (images f xs)
image_pos f p [] h = absurd (omega arith)
image_pos f p (x ∷ xs) h = ground (arith, image_pos f p xs)

-- Two numbers of the list with the same image are in the image twice.
pub image_twice :
    (f : ℕ → ℕ) (p q : ℕ) (xs : List ℕ)
    → 0 < occurrences p xs
    → 0 < occurrences q xs
    → p ≢ q
    → f p ≡ f q
    → 1 < occurrences (f p) (images f xs)
image_twice f p q [] hp hq ne e = absurd (omega arith)
image_twice f p q (x ∷ xs) hp hq ne e =
    ground (arith, image_twice f p q xs, image_pos f p xs, image_pos f q xs)

pub image_of :
    (f : ℕ → ℕ) (c : ℕ) (xs : List ℕ)
    → 0 < occurrences c (images f xs)
    → (p : ℕ) × (0 < occurrences p xs) × (f p ≡ c)
image_of f c [] h = absurd (omega arith)
image_of f c (x ∷ xs) h = elim (Bool-cases (f x == c)) [
  | inl e ↦ (x, ground arith, ground arith)
  | inr e ↦ let (p, there, image) = image_of f c xs (ground arith) in (p, omega arith, image)
]
