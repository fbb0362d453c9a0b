-- ===== src/Base/Members.antt =====
-- Lists of numbers: length, membership by a Boolean test, and lists without repetitions.
use Prim.Native.Nat.{ℕ, zero, suc, ◌+◌, ◌≤◌, ◌<◌}
use mathlib.Core.Path.{◌≡◌, refl}
use mathlib.Core.Logic.{inl, inr}
use mathlib.Core.Bool.{Bool, true, false, ◌||◌}
use mathlib.Core.List.{List, [], ◌∷◌, ◌++◌}
use native.Mathlib.Omega.{arith}
use timer_and_callback.Base.Tests.{◌==◌, if◌then◌else◌, Bool-cases}

module _ {ℓ} {A : Type ℓ} where
  abbrev pub length : List A → ℕ
  length [] = 0
  length (x ∷ xs) = suc (length xs)

  pub length-append : (xs ys : List A) → length (xs ++ ys) ≡ length xs + length ys
  length-append [] ys = omega arith
  length-append (x ∷ xs) ys = omega (arith, length-append xs ys)

abbrev pub has : ℕ → List ℕ → Bool
has a [] = false
has a (x ∷ xs) = (x == a) || has a xs

abbrev pub Distinct : List ℕ → Type 0
Distinct [] = Unit
Distinct (x ∷ xs) = (has x xs ≡ false) × Distinct xs

abbrev pub AllBelow : ℕ → List ℕ → Type 0
AllBelow n [] = Unit
AllBelow n (x ∷ xs) = (x < n) × AllBelow n xs

pub AllBelow-mem : (n a : ℕ) (xs : List ℕ) → AllBelow n xs → has a xs ≡ true → a < n
AllBelow-mem n a [] h m = cc
AllBelow-mem n a (x ∷ xs) h m = ground (arith, AllBelow-mem n a xs)

-- The list without the first entry that is `a`.
abbrev pub without : ℕ → List ℕ → List ℕ
without a [] = []
without a (x ∷ xs) = if x == a then xs else x ∷ without a xs

pub has-without : (b a : ℕ) (xs : List ℕ) → has b (without a xs) ≡ true → has b xs ≡ true
has-without b a [] h = h
has-without b a (x ∷ xs) h = ground (arith, has-without b a xs)

pub has-without_self : (a : ℕ) (xs : List ℕ) → Distinct xs → has a (without a xs) ≡ false
has-without_self a [] d = refl
has-without_self a (x ∷ xs) d = ground (arith, has-without_self a xs)

pub has-without_ne : (b a : ℕ) (xs : List ℕ) → (a ≡ b → ⊥) → has b (without a xs) ≡ has b xs
has-without_ne b a [] h = refl
has-without_ne b a (x ∷ xs) h = ground (arith, has-without_ne b a xs)

pub Distinct-without : (a : ℕ) (xs : List ℕ) → Distinct xs → Distinct (without a xs)
Distinct-without a [] d = d
Distinct-without a (x ∷ xs) d = ground (arith, Distinct-without a xs, has-without x a xs)

pub length-without : (a : ℕ) (xs : List ℕ) → has a xs ≡ true → length xs ≡ length (without a xs) + 1
length-without a [] h = cc
length-without a (x ∷ xs) h = ground (arith, length-without a xs)

pub AllBelow-without : (n a : ℕ) (xs : List ℕ) → AllBelow n xs → AllBelow n (without a xs)
AllBelow-without n a [] h = h
AllBelow-without n a (x ∷ xs) h = ground (arith, AllBelow-without n a xs)

AllBelow-tighten : (n : ℕ) (xs : List ℕ) → AllBelow (suc n) xs → has n xs ≡ false → AllBelow n xs
AllBelow-tighten n [] h out = tt
AllBelow-tighten n (x ∷ xs) h out = (ground arith, AllBelow-tighten n xs h.1 (ground arith))

-- Distinct numbers below `n` are at most `n` many.
pub length-Distinct-le : (n : ℕ) (xs : List ℕ) → Distinct xs → AllBelow n xs → length xs ≤ n
length-Distinct-le zero [] d h = omega arith
length-Distinct-le zero (x ∷ xs) d h = absurd (omega arith)
length-Distinct-le (suc n) xs d h = elim (Bool-cases (has n xs)) [
  | inl e ↦
      let below =
        AllBelow-tighten n (without n xs) (AllBelow-without (suc n) n xs h)
          (has-without_self n xs d) in
      omega (
        arith,
        length-without n xs e,
        length-Distinct-le n (without n xs) (Distinct-without n xs d) below,
      )
  | inr e ↦ omega (arith, length-Distinct-le n xs d (AllBelow-tighten n xs h e))
]
