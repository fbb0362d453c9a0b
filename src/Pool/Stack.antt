-- ===== src/Pool/Stack.antt =====
-- platform/MemoryPool.cpp: the pool as its clients see it, a stack of free objects. test/pool.cpp
-- is such a client.
use mathlib.Core.Path.{subst}
use timer_and_callback.Base.{
  ℕ, ◌+◌, ◌*◌, ◌≤◌, ◌<◌, ◌≡◌, refl, sym, ap, ◌∙◌, true, false, Option, none, some, List, [], ◌∷◌,
  has, arith,
}
use timer_and_callback.Types.{u32_mod}
use timer_and_callback.Pool.{
  PoolShared, MemoryPool, null, memory_pool, get_memory_location_from_index, get_from_pool,
  remove_from_pool,
}
use timer_and_callback.Pool.Addresses.{
  IsPlaced, SamePlace, IsPlaced_same, get_from_pool-SamePlace, remove_from_pool-SamePlace,
  location-SamePlace, location-eq,
}
use timer_and_callback.Pool.Free.{
  IsPool, range, memory_pool-IsPool, get_from_pool-nil, get_from_pool-cons, remove_from_pool-cons,
}
use timer_and_callback.Pool.Ownership.{Call, get, remove}

-- Calls one after the other: what each `getFromPool` returns, and the pool after them. `remove i`
-- gives back the object at the place `i`.
pub perform : MemoryPool → List Call → List ℕ × MemoryPool
perform p [] = ([], p)
perform p (get ∷ calls) =
    let (object, q) = get_from_pool p in let (answers, r) = perform q calls in (object ∷ answers, r)
perform p (remove i ∷ calls) =
    perform (remove_from_pool p (get_memory_location_from_index p i)) calls

-- The same calls on a stack of places: `none` where it is empty.
abbrev pub on_stack : List ℕ → List Call → List (Option ℕ) × List ℕ
on_stack free [] = ([], free)
on_stack [] (get ∷ calls) = let (answers, rest) = on_stack [] calls in (none ∷ answers, rest)
on_stack (i ∷ free) (get ∷ calls) =
    let (answers, rest) = on_stack free calls in (some i ∷ answers, rest)
on_stack free (remove i ∷ calls) = on_stack (i ∷ free) calls

-- Only objects of the pool that are not free are given back.
abbrev pub AllAllowed : (max : ℕ) → List ℕ → List Call → Type 0
AllAllowed max free [] = Unit
AllAllowed max [] (get ∷ calls) = AllAllowed max [] calls
AllAllowed max (i ∷ free) (get ∷ calls) = AllAllowed max free calls
AllAllowed max free (remove i ∷ calls) =
    (i < max) × (has i free ≡ false) × AllAllowed max (i ∷ free) calls

abbrev pub address : MemoryPool → Option ℕ → ℕ
address p none = null
address p (some i) = get_memory_location_from_index p i

abbrev pub addresses : MemoryPool → List (Option ℕ) → List ℕ
addresses p [] = []
addresses p (o ∷ os) = address p o ∷ addresses p os

addresses-SamePlace :
    (p q : MemoryPool) (os : List (Option ℕ)) → SamePlace p q → addresses q os ≡ addresses p os
addresses-SamePlace p q [] same = refl
addresses-SamePlace p q (none ∷ os) same = ap (λ l. null ∷ l) (addresses-SamePlace p q os same)
addresses-SamePlace p q (some i ∷ os) same =
    λ k. location-SamePlace p q i same k ∷ addresses-SamePlace p q os same k

abbrev pub IsStack : MemoryPool → List ℕ → List Call → Type 0
IsStack p free calls =
    ((perform p calls).0 ≡ addresses p (on_stack free calls).0)
    × IsPool (perform p calls).1 (on_stack free calls).1

pub perform-IsStack :
    (p : MemoryPool) (free : List ℕ) (calls : List Call)
    → IsPlaced p
    → IsPool p free
    → AllAllowed p.max_number_of_objects free calls
    → IsStack p free calls
unfolding perform
perform-IsStack p free [] placed pool allowed = (refl, pool)
perform-IsStack p [] (get ∷ calls) placed pool allowed = rw (get_from_pool-nil pool) (
    let (answers, rest) = perform-IsStack p [] calls placed pool allowed in
    (ap (λ l. null ∷ l) answers, rest))
perform-IsStack p (i ∷ free) (get ∷ calls) placed pool allowed =
    let (object, pool') = get_from_pool-cons pool in
    let q = (get_from_pool p).1 in
    let same = get_from_pool-SamePlace p in
    let (answers, rest) =
      perform-IsStack q free calls (IsPlaced_same q same placed) pool'
        (subst (λ m. AllAllowed m free calls) (sym same.3) allowed) in
    (λ k. object k ∷ (answers ∙ addresses-SamePlace p q (on_stack free calls).0 same) k, rest)
perform-IsStack p free (remove i ∷ calls) placed pool (inside, used, allowed) =
    let object = get_memory_location_from_index p i in
    let q = remove_from_pool p object in
    let same = remove_from_pool-SamePlace p object in
    let (answers, rest) =
      perform-IsStack q (i ∷ free) calls (IsPlaced_same q same placed)
        (remove_from_pool-cons i placed pool inside used)
        (subst (λ m. AllAllowed m (i ∷ free) calls) (sym same.3) allowed) in
    (answers ∙ addresses-SamePlace p q (on_stack (i ∷ free) calls).0 same, rest)

-- Each object lies in the shared memory, behind the free list.
abbrev pub AllMapped : MemoryPool → Type 0
AllMapped p =
    (i : ℕ)
    → i < p.max_number_of_objects
    → (p.shared_mem + (4 + 8 + 8 * p.max_number_of_objects) ≤ get_memory_location_from_index p i)
      × (get_memory_location_from_index p i + p.object_size ≤ p.shared_mem + p.total_size)

next_fits : (i max size : ℕ) → i < max → i * size + size ≤ max * size
next_fits i max size h = grind arith

all_mapped :
    (shared_mem object_size max : ℕ) (found : PoolShared)
    → 4 + 8 + 8 * max + max * object_size < u32_mod
    → IsPlaced (memory_pool true shared_mem object_size max found)
    → AllMapped (memory_pool true shared_mem object_size max found)
unfolding memory_pool
all_mapped shared_mem object_size max found whole placed i inside =
    let here = location-eq placed i inside in
    let fits = next_fits i max object_size inside in
    (omega (arith, here, whole), omega (arith, here, fits, whole))

-- To its clients, a pool made with O_EXCL, whose objects and free list together are smaller than 2
-- ^ 32 bytes and lie within the address space, whatever the memory held, is a stack of places that
-- holds all of them in ascending order: any history of calls that give back only objects that are
-- not free gets the addresses of the places that the stack answers, and NULL where it is empty, and
-- leaves as free objects those on the stack; and each object lies in the shared memory, behind the
-- free list.
pub memory_pool-IsStack :
    (shared_mem object_size max : ℕ) (found : PoolShared) (calls : List Call)
    → 4 + 8 + 8 * max + max * object_size < u32_mod
    → IsPlaced (memory_pool true shared_mem object_size max found)
    → AllAllowed max (range 0 max) calls
    → IsStack (memory_pool true shared_mem object_size max found) (range 0 max) calls
      × AllMapped (memory_pool true shared_mem object_size max found)
unfolding memory_pool
memory_pool-IsStack shared_mem object_size max found calls whole placed allowed = (
  perform-IsStack (memory_pool true shared_mem object_size max found) (range 0 max) calls placed
      (memory_pool-IsPool shared_mem object_size max found (omega (arith, whole))) allowed,
  all_mapped shared_mem object_size max found whole placed,
)

-- The calls of test/pool.cpp, whose pool has twenty objects: `pobj[j]` is the object at the place `j`.
abbrev pub pool_calls : List Call
pool_calls =
    get
    ∷ get
    ∷ get
    ∷ get
    ∷ get
    ∷ get
    ∷ get
    ∷ get
    ∷ get
    ∷ get
    ∷ remove 2
    ∷ remove 5
    ∷ get
    ∷ get
    ∷ get
    ∷ remove 8
    ∷ get
    ∷ get
    ∷ []
