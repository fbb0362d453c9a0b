-- ===== src/Base/Slots.antt =====
-- Arrays as functions from the index, and how often an item stands among the first entries.
use Prim.Native.Nat.{ℕ, zero, suc, ◌+◌, ◌≤◌, ◌<◌}
use mathlib.Core.Path.{◌≡◌, refl}
use mathlib.Core.Logic.{inl, inr}
use mathlib.Core.List.{List, [], ◌∷◌}
use native.Mathlib.Omega.{arith}
use native.Mathlib.Numerals.{add-one}
use timer_and_callback.Base.Tests.{◌==◌, if◌then◌else◌, Bool-cases}

abbrev pub update {ℓ} : {A : Type ℓ} → (ℕ → A) → ℕ → A → ℕ → A
update f i v j = if i == j then v else f j

abbrev pub one_if_eq : ℕ → ℕ → ℕ
one_if_eq a b = if a == b then 1 else 0

-- How many of `f 0`, …, `f (n - 1)` are `p`.
unfoldable pub count : ℕ → (ℕ → ℕ) → ℕ → ℕ
count p f zero = 0
count p f (suc n) = one_if_eq (f n) p + count p f n

-- The first `n` entries of both arrays are the same items, each as often.
abbrev pub SameItems : (ℕ → ℕ) → (ℕ → ℕ) → ℕ → Type 0
SameItems f g n = (p : ℕ) → count p f n ≡ count p g n

pub count-update_above :
    (p : ℕ) (f : ℕ → ℕ) (i v n : ℕ) → n ≤ i → count p (update f i v) n ≡ count p f n
unfolding count
count-update_above p f i v zero h = refl
count-update_above p f i v (suc n) h = ground (arith, count-update_above p f i v n)

pub count_add_one :
    (p : ℕ) (f : ℕ → ℕ) (n : ℕ) → count p f (n + 1) ≡ one_if_eq (f n) p + count p f n
unfolding count
count_add_one p f n = rw add-one refl

pub count-update_last :
    (p : ℕ) (f : ℕ → ℕ) (n v : ℕ) → count p (update f n v) (n + 1) ≡ count p f n + one_if_eq v p
count-update_last p f n v =
    ground (arith, count_add_one p (update f n v) n, count-update_above p f n v n)

-- A write trades the old entry for the new one.
pub count-update :
    (p : ℕ) (f : ℕ → ℕ) (i v n : ℕ)
    → i < n
    → count p (update f i v) n + one_if_eq (f i) p ≡ count p f n + one_if_eq v p
unfolding count
count-update p f i v zero h = absurd (omega arith)
count-update p f i v (suc n) h =
    ground (arith, count-update p f i v n, count-update_above p f i v n)

abbrev pub swap : (ℕ → ℕ) → ℕ → ℕ → ℕ → ℕ
swap f i j = update (update f i (f j)) j (f i)

pub count-swap : (f : ℕ → ℕ) (i j n : ℕ) → i < n → j < n → SameItems (swap f i j) f n
count-swap f i j n hi hj p =
    ground (arith, count-update p f i (f j) n, count-update p (update f i (f j)) j (f i) n)

pub count_pos : (p : ℕ) (f : ℕ → ℕ) (i n : ℕ) → i < n → f i ≡ p → 0 < count p f n
unfolding count
count_pos p f i zero h e = absurd (omega arith)
count_pos p f i (suc n) h e = ground (arith, count_pos p f i n)

-- A counted item stands somewhere.
pub count_somewhere : (p : ℕ) (f : ℕ → ℕ) (n : ℕ) → 0 < count p f n → (i : ℕ) × (i < n) × (f i ≡ p)
unfolding count
count_somewhere p f zero some_left = absurd (omega arith)
count_somewhere p f (suc n) some_left = elim (Bool-cases (f n == p)) [
  | inl e ↦ (n, omega arith, ground arith)
  | inr e ↦ let (i, h, held) = count_somewhere p f n (ground arith) in (i, omega arith, held)
]

abbrev pub occurrences : ℕ → List ℕ → ℕ
occurrences p [] = 0
occurrences p (q ∷ qs) = one_if_eq q p + occurrences p qs
