-- ===== src/Pool/Addresses.antt =====
-- platform/MemoryPool.cpp: the addresses of the objects and their indices.
use native.Mathlib.Nat.{mul-div_cancel}
use timer_and_callback.Base.{
  ℕ, ◌+◌, ◌-◌, ◌*◌, ◌≤◌, ◌<◌, ◌≡◌, refl, ◌==◌, Bool-cases, inl, inr, arith,
}
use timer_and_callback.Types.{u64_mod}
use timer_and_callback.Pool.{
  MemoryPool, objects, get_memory_location_from_index, get_index_from_memory_location,
  get_from_pool, remove_from_pool,
}

-- The pool is mapped at an address that is not NULL, and its objects end within the address space.
pub record IsPlaced (p : MemoryPool) : Type 0 where
  pub mapped : 0 < p.shared_mem
  pub sized : 0 < p.object_size
  pub ends : objects p + p.max_number_of_objects * p.object_size < u64_mod

module _ {p : MemoryPool} (placed : IsPlaced p) (i : ℕ) (inside : i < p.max_number_of_objects) where
  scaled-lt : i * p.object_size < p.max_number_of_objects * p.object_size
  scaled-lt = grind (arith, placed.sized)

  pub location-eq : get_memory_location_from_index p i ≡ objects p + i * p.object_size
  unfolding get_memory_location_from_index
  location-eq = omega (arith, placed.ends, scaled-lt)

  -- In a pool that lies within the address space, the index computed of an object's address is the
  -- object's index.
  pub index-location : get_index_from_memory_location p (get_memory_location_from_index p i) ≡ i
  unfolding get_index_from_memory_location
  index-location =
      let offset : objects p + i * p.object_size - objects p ≡ i * p.object_size = omega arith in
      rw location-eq (ground (arith, offset, mul-div_cancel i placed.sized))

  pub location_pos : 0 < get_memory_location_from_index p i
  location_pos = omega (arith, placed.mapped, location-eq)

-- Two objects of a pool that lies within the address space do not overlap.
pub locations_apart :
    {p : MemoryPool} (placed : IsPlaced p) (i j : ℕ)
    → i < j
    → j < p.max_number_of_objects
    → get_memory_location_from_index p i + p.object_size ≤ get_memory_location_from_index p j
locations_apart {p} placed i j lt inside =
    let step : i * p.object_size + p.object_size ≤ j * p.object_size = grind arith in
    omega (arith, step, location-eq placed i (omega arith), location-eq placed j inside)

-- The calls leave the place and the size of the pool as they are.
abbrev pub SamePlace : MemoryPool → MemoryPool → Type 0
SamePlace p q =
    (q.shared_mem ≡ p.shared_mem)
    × (q.size_of_shared_management_area ≡ p.size_of_shared_management_area)
    × (q.object_size ≡ p.object_size)
    × (q.max_number_of_objects ≡ p.max_number_of_objects)

pub get_from_pool-SamePlace : (p : MemoryPool) → SamePlace p (get_from_pool p).1
unfolding get_from_pool
get_from_pool-SamePlace p = ground arith

pub remove_from_pool-SamePlace :
    (p : MemoryPool) (object : ℕ) → SamePlace p (remove_from_pool p object)
unfolding remove_from_pool
remove_from_pool-SamePlace p object = ground arith

pub IsPlaced_same : {p : MemoryPool} (q : MemoryPool) → SamePlace p q → IsPlaced p → IsPlaced q
IsPlaced_same q (a, b, c, d) placed = record {
  mapped = rw a placed.mapped;
  sized = rw c placed.sized;
  ends = rw (a, b, c, d) placed.ends;
}

pub location-SamePlace :
    (p q : MemoryPool) (i : ℕ)
    → SamePlace p q
    → get_memory_location_from_index q i ≡ get_memory_location_from_index p i
unfolding get_memory_location_from_index
location-SamePlace p q i (a, b, c, d) = rw (a, b, c) refl

-- Giving an object back moves no object.
module _ (p : MemoryPool) (object : ℕ) where
  pub remove_from_pool-IsPlaced : IsPlaced p → IsPlaced (remove_from_pool p object)
  unfolding remove_from_pool
  remove_from_pool-IsPlaced placed = elim (Bool-cases (p.number_allocated == 0)) [
    | inl e ↦ rw e placed
    | inr e ↦ rw e (record { mapped = placed.mapped; sized = placed.sized; ends = placed.ends })
  ]

  pub location-remove_from_pool :
      (index : ℕ)
      → get_memory_location_from_index (remove_from_pool p object) index
        ≡ get_memory_location_from_index p index
  unfolding remove_from_pool get_memory_location_from_index
  location-remove_from_pool index = elim (Bool-cases (p.number_allocated == 0)) [
    | inl e ↦ rw e refl
    | inr e ↦ rw e refl
  ]

  pub max-remove_from_pool :
      (remove_from_pool p object).max_number_of_objects ≡ p.max_number_of_objects
  unfolding remove_from_pool
  max-remove_from_pool = elim (Bool-cases (p.number_allocated == 0)) [
    | inl e ↦ rw e refl
    | inr e ↦ rw e refl
  ]
