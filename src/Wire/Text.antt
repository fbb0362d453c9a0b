-- ===== src/Wire/Text.antt =====
-- common/Util.cpp: strings and padding.
use timer_and_callback.Base.{
  ℕ, zero, suc, ◌≡◌, refl, ap, false, List, [], ◌∷◌, ◌++◌, length, has, take, drop, take-append,
  drop-append, arith,
}
use mathlib.Core.Path.{subst}
use mathlib.Core.List.{append_assoc}
use timer_and_callback.Wire.{
  c_string, zeros, serialize_string, deserialize_string, serialize_padding, deserialize_padding,
}

c_string_self : (cs : List ℕ) → has 0 cs ≡ false → c_string cs ≡ cs
c_string_self [] h = refl
c_string_self (c ∷ cs) h = ground (arith, c_string_self cs)

-- A string without a NUL character comes back when it is read with its own length, whatever the
-- fresh buffers held; and the rest of the stream is left.
pub string_round_trip :
    (cs fresh fresh' rest : List ℕ)
    → has 0 cs ≡ false
    → deserialize_string fresh (length cs) (serialize_string fresh' cs [] ++ rest) ≡ (cs, rest)
unfolding serialize_string deserialize_string
string_round_trip cs fresh fresh' rest h =
    let tail = drop (length (cs ++ 0 ∷ [])) fresh' in
    let written : take (length cs) ((cs ++ 0 ∷ []) ++ tail) ≡ cs =
      rw (append_assoc cs (0 ∷ []) tail) (take-append cs (0 ∷ tail)) in
    rw (
      c_string_self cs h,
      written,
      drop-append cs rest,
      take-append cs rest,
      take-append cs (drop (length cs) fresh),
      c_string_self cs h,
    )

pub length-zeros : (n : ℕ) → length (zeros n) ≡ n
length-zeros zero = refl
length-zeros (suc n) = ap suc (length-zeros n)

-- Padding that was written is skipped by as many bytes.
pub padding_round_trip :
    (n : ℕ) (rest : List ℕ) → deserialize_padding n (serialize_padding n [] ++ rest) ≡ rest
unfolding serialize_padding deserialize_padding
padding_round_trip n rest =
    subst (λ k. drop k (zeros n ++ rest) ≡ rest) (length-zeros n) (drop-append (zeros n) rest)
