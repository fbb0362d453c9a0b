-- ===== src/Pool/Ownership.antt =====
-- platform/MemoryPool.cpp: histories of calls. The clients give back only objects that they hold.
use mathlib.Core.Path.{subst}
use timer_and_callback.Base.{
  ℕ, ◌<◌, ◌≡◌, sym, ap, ◌⊎◌, inl, inr, true, false, List, [], ◌∷◌, ◌==◌, if◌then◌else◌, Bool-cases,
  length, has, Distinct, AllBelow, AllBelow-mem, without, has-without, has-without_self,
  Distinct-without, AllBelow-without, length-without, arith,
}
use timer_and_callback.Pool.{
  MemoryPool, null, get_memory_location_from_index, get_index_from_memory_location, get_from_pool,
  remove_from_pool,
}
use timer_and_callback.Pool.Addresses.{
  IsPlaced, location_pos, index-location, get_from_pool-SamePlace, remove_from_pool-SamePlace,
  IsPlaced_same,
}
use timer_and_callback.Pool.Free.{
  IsPool, get_from_pool-cons, get_from_pool-nil, remove_from_pool-cons,
}

-- A pool, and the indices of the objects that have been handed out and not given back.
pub record Holdings : Type 0 where
  pub pool : MemoryPool
  pub live : List ℕ

pub data Call : Type 0 where
  get : Call
  remove : ℕ → Call

pub step : Holdings → Call → Holdings
step h get =
    let (object, pool) = get_from_pool h.pool in
    if object == null
    then record h { pool = pool }
    else record { pool = pool; live = get_index_from_memory_location h.pool object ∷ h.live }
step h (remove i) =
    if has i h.live
    then record {
      pool = remove_from_pool h.pool (get_memory_location_from_index h.pool i);
      live = without i h.live;
    }
    else h

pub run : Holdings → List Call → Holdings
run h [] = h
run h (c ∷ calls) = run (step h c) calls

-- Every object is free or held, never both, and the count of the pool is right.
pub record IsSound (h : Holdings) : Type 0 where
  pub free : List ℕ
  pub pool : IsPool h.pool free
  pub placed : IsPlaced h.pool
  pub distinct : Distinct h.live
  pub inside : AllBelow h.pool.max_number_of_objects h.live
  pub apart : (i : ℕ) → has i h.live ≡ true → has i free ≡ false
  pub counted : h.pool.number_allocated ≡ length h.live

get-IsSound_cons :
    (h : Holdings) (i : ℕ) (free : List ℕ)
    → IsSound h
    → IsPool h.pool (i ∷ free)
    → ((j : ℕ) → has j h.live ≡ true → has j (i ∷ free) ≡ false)
    → IsSound (step h get)
unfolding step
get-IsSound_cons h i free v pool apart =
    let (object, rest) = get_from_pool-cons pool in
    let same = get_from_pool-SamePlace h.pool in
    let inside = pool.inside.0 in
    let not_null : ((get_from_pool h.pool).0 == null) ≡ false =
      ground (arith, object, location_pos v.placed i inside) in
    rw (not_null, object, index-location v.placed i inside)
      (record {
        free = free;
        pool = rest;
        placed = IsPlaced_same _ same v.placed;
        distinct = (ground (arith, apart i), v.distinct);
        inside = subst (λ m. AllBelow m (i ∷ h.live)) (sym (same.3)) (inside, v.inside);
        apart = λ j m. ground (arith, apart j, pool.distinct.0);
        counted = omega (arith, rest.counted, same.3, pool.counted, v.counted);
      })

get-IsSound_nil : (h : Holdings) → IsSound h → IsPool h.pool [] → IsSound (step h get)
unfolding step
get-IsSound_nil h v pool = rw (get_from_pool-nil pool) v

get-IsSound :
    (h : Holdings) (free : List ℕ)
    → IsSound h
    → IsPool h.pool free
    → ((j : ℕ) → has j h.live ≡ true → has j free ≡ false)
    → IsSound (step h get)
get-IsSound h [] v pool apart = get-IsSound_nil h v pool
get-IsSound h (i ∷ free) v pool apart = get-IsSound_cons h i free v pool apart

remove-IsSound : (h : Holdings) (i : ℕ) → IsSound h → IsSound (step h (remove i))
unfolding step
remove-IsSound h i v = elim (Bool-cases (has i h.live)) [
  | inl e ↦
      let max = h.pool.max_number_of_objects in
      let same = remove_from_pool-SamePlace h.pool (get_memory_location_from_index h.pool i) in
      let pool =
        remove_from_pool-cons i v.placed v.pool (AllBelow-mem max i h.live v.inside e)
          (v.apart i e) in
      rw e (record {
        free = i ∷ v.free;
        pool = pool;
        placed = IsPlaced_same _ same v.placed;
        distinct = Distinct-without i h.live v.distinct;
        inside =
            subst (λ m. AllBelow m (without i h.live)) (sym (same.3))
              (AllBelow-without max i h.live v.inside);
        apart = λ j m.
            ground (arith, v.apart j, has-without j i h.live, has-without_self i h.live v.distinct);
        counted =
            omega
              (arith, pool.counted, v.pool.counted, same.3, v.counted, length-without i h.live e);
      })
  | inr e ↦ rw e v
]

step-IsSound : (h : Holdings) (c : Call) → IsSound h → IsSound (step h c)
step-IsSound h get v = get-IsSound h v.free v v.pool v.apart
step-IsSound h (remove i) v = remove-IsSound h i v

-- After any history of calls in which objects are given back only by a client that holds them,
-- every object is free or held and never both, the free list leads through the free ones, and
-- `numberAllocated` counts the held ones.
pub run-IsSound : (h : Holdings) (calls : List Call) → IsSound h → IsSound (run h calls)
unfolding run
run-IsSound h [] v = v
run-IsSound h (c ∷ calls) v = run-IsSound (step h c) calls (step-IsSound h c v)

-- What `getFromPool` may return to a history of such calls: NULL when every object is held, and
-- otherwise an object that no one holds.
abbrev pub Fresh : Holdings → ℕ → Type 0
Fresh h object =
    ((object ≡ null) × (length h.live ≡ h.pool.max_number_of_objects))
    ⊎ ((i : ℕ) × (i < h.pool.max_number_of_objects)
        × (object ≡ get_memory_location_from_index h.pool i)
        × (has i h.live ≡ false))

get_from_pool-Fresh_free :
    (h : Holdings) (free : List ℕ)
    → IsSound h
    → IsPool h.pool free
    → ((j : ℕ) → has j h.live ≡ true → has j free ≡ false)
    → Fresh h (get_from_pool h.pool).0
get_from_pool-Fresh_free h [] v pool apart =
    inl (ap (λ r. r.0) (get_from_pool-nil pool), omega (arith, pool.counted, v.counted))
get_from_pool-Fresh_free h (i ∷ free) v pool apart =
    inr (i, pool.inside.0, (get_from_pool-cons pool).0, ground (arith, apart i))

-- In a sound pool `getFromPool` never hands out an object that is held, and returns NULL only if all
-- objects are held.
pub get_from_pool-Fresh : (h : Holdings) → IsSound h → Fresh h (get_from_pool h.pool).0
get_from_pool-Fresh h v = get_from_pool-Fresh_free h v.free v v.pool v.apart
