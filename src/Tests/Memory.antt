-- ===== src/Tests/Memory.antt =====
-- platform/MemoryPool.cpp at a pool of eight objects of 64 bytes.
use timer_and_callback.Base.{ℕ, ◌+◌, ◌≡◌, refl, true, Option, some, List, [], ◌∷◌, arith}
use timer_and_callback.Pool.{
  PoolShared, MemoryPool, memory_pool, get_from_pool, get_memory_location_from_index,
}
use timer_and_callback.Pool.Addresses.{IsPlaced, location-eq}
use timer_and_callback.Pool.Stack.{IsStack, AllMapped, on_stack, pool_calls, memory_pool-IsStack}
use timer_and_callback.Pool.Free.{IsPool, range}
use timer_and_callback.Pool.Ownership.{
  Holdings, get, remove, run, IsSound, run-IsSound, Fresh, get_from_pool-Fresh,
}

-- Memory as it may be before the pool is set up.
abbrev pub garbage : PoolShared
garbage = record { number_allocated = 77; first_free = 5; free_list = λ i. 3 }

twenty-IsPlaced : IsPlaced (memory_pool true 4096 16 20 garbage)
unfolding memory_pool
twenty-IsPlaced = record { mapped = omega arith; sized = omega arith; ends = omega arith }

memory_pool-IsStack_example :
    IsStack (memory_pool true 4096 16 20 garbage) (range 0 20) pool_calls
    × AllMapped (memory_pool true 4096 16 20 garbage)
memory_pool-IsStack_example =
    memory_pool-IsStack 4096 16 20 garbage pool_calls (omega arith) twenty-IsPlaced
      (omega arith, refl, (omega arith, refl, (omega arith, refl, tt)))

abbrev places : List ℕ → List (Option ℕ)
places [] = []
places (i ∷ is) = some i ∷ places is

-- What test/pool.cpp is handed: the objects that were given back last come first.
pool_calls_test :
    (on_stack (range 0 20) pool_calls).0
    ≡ places (0 ∷ 1 ∷ 2 ∷ 3 ∷ 4 ∷ 5 ∷ 6 ∷ 7 ∷ 8 ∷ 9 ∷ 5 ∷ 2 ∷ 10 ∷ 8 ∷ 11 ∷ [])
pool_calls_test = refl

-- A pool in which the objects 0 and 1 are handed out.
abbrev pub pool : MemoryPool
pool = record {
  shared_mem = 4096;
  size_of_shared_management_area = 76;
  total_size = 588;
  object_size = 64;
  max_number_of_objects = 8;
  shared = record { number_allocated = 2; first_free = 2; free_list = λ i. i + 1 };
}

abbrev pub placed : IsPlaced pool
placed = record { mapped = omega arith; sized = omega arith; ends = omega arith }

pub location_of_1 : 4236 ≡ get_memory_location_from_index pool 1
location_of_1 = omega (arith, location-eq placed 1 (omega arith))

pub pool-IsPool : IsPool pool (2 ∷ 3 ∷ 4 ∷ 5 ∷ 6 ∷ 7 ∷ [])
pool-IsPool = record {
  chain = (refl, (refl, (refl, (refl, (refl, (refl, refl))))));
  inside = ground arith;
  distinct = ground arith;
  counted = refl;
  fits = omega arith;
}

abbrev held : Holdings
held = record { pool = pool; live = 0 ∷ 1 ∷ [] }

held-IsSound : IsSound held
held-IsSound = record {
  free = 2 ∷ 3 ∷ 4 ∷ 5 ∷ 6 ∷ 7 ∷ [];
  pool = pool-IsPool;
  placed = placed;
  distinct = ground arith;
  inside = ground arith;
  apart = λ i h. ground arith;
  counted = refl;
}

run-IsSound_example : IsSound (run held (get ∷ remove 0 ∷ remove 6 ∷ get ∷ []))
run-IsSound_example = run-IsSound held (get ∷ remove 0 ∷ remove 6 ∷ get ∷ []) held-IsSound

get_from_pool-Fresh_example : Fresh held (get_from_pool pool).0
get_from_pool-Fresh_example = get_from_pool-Fresh held held-IsSound
