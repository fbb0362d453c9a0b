-- ===== src/Pool/Reuse.antt =====
-- platform/MemoryPool.cpp: what the pool hands out after an object has been given back.
use mathlib.Core.Path.{subst}
use timer_and_callback.Base.{ℕ, ◌+◌, ◌≤◌, ◌<◌, ◌≡◌, refl, ap, ◌∙◌, false, ◌==◌, update, arith}
use timer_and_callback.Types.{u32, u32_mod, pred32}
use timer_and_callback.Pool.{
  MemoryPool, get_memory_location_from_index, get_from_pool, remove_from_pool,
}
use timer_and_callback.Pool.Addresses.{IsPlaced, index-location}

-- The pool after the object at `i` has been given back, and after the first object has been taken.
abbrev freed : MemoryPool → ℕ → MemoryPool
freed p i = record p {
  shared = record {
    number_allocated = pred32 p.number_allocated;
    first_free = i;
    free_list = update p.free_list i p.first_free;
  };
}

abbrev taken : MemoryPool → MemoryPool
taken p = record p {
  shared = record (p.shared) {
    first_free = p.free_list p.first_free;
    number_allocated = u32 (p.number_allocated + 1);
  };
}

get_from_pool-taken :
    (p : MemoryPool)
    → p.number_allocated < p.max_number_of_objects
    → get_from_pool p ≡ (get_memory_location_from_index p p.first_free, taken p)
unfolding get_from_pool
get_from_pool-taken p h =
    let more : (p.number_allocated == p.max_number_of_objects) ≡ false = ground arith in rw more

location-freed :
    (p : MemoryPool) (i j : ℕ)
    → get_memory_location_from_index (freed p i) j ≡ get_memory_location_from_index p j
unfolding get_memory_location_from_index
location-freed p i j = refl

location-taken :
    (p : MemoryPool) (j : ℕ)
    → get_memory_location_from_index (taken p) j ≡ get_memory_location_from_index p j
unfolding get_memory_location_from_index
location-taken p j = refl

module _ {p : MemoryPool} (i : ℕ) (placed : IsPlaced p) (inside : i < p.max_number_of_objects) where
  remove_from_pool-freed :
      0 < p.number_allocated → remove_from_pool p (get_memory_location_from_index p i) ≡ freed p i
  unfolding remove_from_pool
  remove_from_pool-freed used =
      let some_used : (p.number_allocated == 0) ≡ false = ground arith in
      rw (index-location placed i inside, some_used)

module _ {p : MemoryPool} (i : ℕ) (placed : IsPlaced p) (inside : i < p.max_number_of_objects)
    (counted : p.number_allocated ≤ p.max_number_of_objects)
    (fits : p.max_number_of_objects < u32_mod) where
  abbrev object : ℕ
  object = get_memory_location_from_index p i

  -- The object given back last is the next one handed out, and the pool is then as it was before:
  -- as many objects are allocated and the same one is the first free.
  pub get-remove :
      0 < p.number_allocated
      → let (again, q) = get_from_pool (remove_from_pool p object) in
        (again ≡ object) × (q.first_free ≡ p.first_free) × (q.number_allocated ≡ p.number_allocated)
  get-remove used =
      rw
        (remove_from_pool-freed i placed inside used, get_from_pool-taken (freed p i) (omega arith))
        (location-freed p i i, ground arith, omega arith)

  freed-IsPlaced : IsPlaced (freed p i)
  freed-IsPlaced = record { mapped = placed.mapped; sized = placed.sized; ends = placed.ends }

  remove_again : 1 < p.number_allocated → remove_from_pool (freed p i) object ≡ freed (freed p i) i
  remove_again used =
      subst (λ o. remove_from_pool (freed p i) o ≡ freed (freed p i) i) (location-freed p i i)
        (remove_from_pool-freed i freed-IsPlaced inside (omega arith))

  -- Nothing keeps an allocated object from being given back twice, when at least two objects are
  -- allocated: the next two calls of `getFromPool` then both return it.
  pub remove_from_pool-twice :
      1 < p.number_allocated
      → let (one, q) = get_from_pool (remove_from_pool (remove_from_pool p object) object) in
        (one ≡ object) × ((get_from_pool q).0 ≡ object)
  remove_from_pool-twice used =
      let q = freed (freed p i) i in
      let same = λ (j : ℕ). location-freed (freed p i) i j ∙ location-freed p i j in
      let again : (taken q).first_free ≡ i = ground arith in
      rw
        (
          remove_from_pool-freed i placed inside (omega arith),
          remove_again used,
          get_from_pool-taken q (omega arith),
          get_from_pool-taken (taken q) (omega arith),
        )
        (same i, ap (get_memory_location_from_index (taken q)) again ∙ location-taken q i ∙ same i)
