-- ===== src/Base/Outcome.antt =====
-- How a call of the modelled code ends, and the rules for calls that end well.
use mathlib.Core.Path.{◌≡◌, refl, sym, ◌∙◌, subst}
use mathlib.Core.Bool.{Bool, true, false}
use timer_and_callback.Base.Tests.{if◌then◌else◌}

-- A value; undefined behaviour of the C++ (a wild pointer, an index outside of an array, a
-- division by zero); a wait that no one ends; a failed `assert`; the fuel of a modelled loop spent.
pub data Run {ℓ} (Value : Type ℓ) : Type ℓ where
  fault blocked aborted out_of_fuel : Run Value
  ok : Value → Run Value

-- A call, and what comes after it if it returned.
abbrev pub ◌>>=◌ {ℓ ℓ'} : {A : Type ℓ} {B : Type ℓ'} → Run A → (A → Run B) → Run B
fault >>= next = fault
blocked >>= next = blocked
aborted >>= next = aborted
out_of_fuel >>= next = out_of_fuel
ok value >>= next = next value

infixl 5 ◌>>=◌
-- The call ends with a value, and the value satisfies `P`.
pub record Returns {ℓ κ} {A : Type ℓ} (P : A → Type κ) (call : Run A) : Type (ℓ ⊔ κ) where
  pub value : A
  pub ended : call ≡ ok value
  pub holds : P value

pub returns {ℓ κ} : {A : Type ℓ} {P : A → Type κ} {value : A} → P value → Returns P (ok value)
returns {value = value} p = record { value = value; ended = refl; holds = p }

pub Returns-map {ℓ κ κ'} :
    {A : Type ℓ} {P : A → Type κ} {Q : A → Type κ'} {call : Run A}
    → Returns P call
    → ((value : A) → P value → Q value)
    → Returns Q call
Returns-map v k = record { value = v.value; ended = v.ended; holds = k v.value v.holds }

pub Returns-if {ℓ κ} :
    {A : Type ℓ} {P : A → Type κ} {yes no : Run A} (test : Bool)
    → (test ≡ true → Returns P yes)
    → (test ≡ false → Returns P no)
    → Returns P (if test then yes else no)
Returns-if false on_yes on_no = on_no refl
Returns-if true on_yes on_no = on_yes refl

pub Returns-bind {ℓ ℓ' κ κ'} :
    {A : Type ℓ} {B : Type ℓ'} {P : A → Type κ} {Q : B → Type κ'} {call : Run A} {next : A → Run B}
    → Returns P call
    → ((value : A) → P value → Returns Q (next value))
    → Returns Q (call >>= next)
Returns-bind {Q = Q} {next = next} v k =
    subst (λ call. Returns Q (call >>= next)) (sym v.ended) (k v.value v.holds)

abbrev HoldsIfOk {ℓ κ} : {A : Type ℓ} → (A → Type κ) → Run A → Type κ
HoldsIfOk P (ok value) = P value
HoldsIfOk P fault = Unit
HoldsIfOk P blocked = Unit
HoldsIfOk P aborted = Unit
HoldsIfOk P out_of_fuel = Unit

pub Returns-at {ℓ κ} :
    {A : Type ℓ} {P : A → Type κ} {call : Run A} {value : A}
    → Returns P call
    → call ≡ ok value
    → P value
Returns-at {P = P} v e = subst (HoldsIfOk P) (sym v.ended ∙ e) v.holds

-- If the call ends with a value, that value satisfies `P`.
pub record IfReturns {ℓ κ} {A : Type ℓ} (P : A → Type κ) (call : Run A) : Type (ℓ ⊔ κ) where
  pub holds : HoldsIfOk P call

pub IfReturns-at {ℓ κ} :
    {A : Type ℓ} {P : A → Type κ} {call : Run A} {value : A}
    → IfReturns P call
    → call ≡ ok value
    → P value
IfReturns-at {P = P} v e = subst (HoldsIfOk P) e v.holds

pub IfReturns-any {ℓ} : {A : Type ℓ} (call : Run A) → IfReturns (λ a. Unit {0}) call
IfReturns-any (ok a) = record { holds = tt }
IfReturns-any fault = record { holds = tt }
IfReturns-any blocked = record { holds = tt }
IfReturns-any aborted = record { holds = tt }
IfReturns-any out_of_fuel = record { holds = tt }

pub IfReturns-bind {ℓ ℓ' κ κ'} :
    {A : Type ℓ} {B : Type ℓ'} {P : A → Type κ} {Q : B → Type κ'} (call : Run A) {next : A → Run B}
    → IfReturns P call
    → ((a : A) → P a → IfReturns Q (next a))
    → IfReturns Q (call >>= next)
IfReturns-bind (ok a) v k = k a v.holds
IfReturns-bind fault v k = record { holds = tt }
IfReturns-bind blocked v k = record { holds = tt }
IfReturns-bind aborted v k = record { holds = tt }
IfReturns-bind out_of_fuel v k = record { holds = tt }

pub IfReturns-if {ℓ κ} :
    {A : Type ℓ} {P : A → Type κ} {yes no : Run A} (test : Bool)
    → IfReturns P yes
    → IfReturns P no
    → IfReturns P (if test then yes else no)
IfReturns-if true v v' = v
IfReturns-if false v v' = v'
