-- ===== src/Pool/Free.antt =====
-- platform/MemoryPool.cpp: the free list, and what each operation does to it.
use timer_and_callback.Base.{
  ℕ, zero, suc, ◌+◌, ◌≤◌, ◌<◌, ◌≡◌, refl, ap, true, false, List, [], ◌∷◌, ◌==◌, update, length, has,
  Distinct, AllBelow, length-Distinct-le, arith,
}
use timer_and_callback.Types.{u32_mod}
use timer_and_callback.Pool.{
  PoolShared, MemoryPool, null, fill_free_list, memory_pool, get_memory_location_from_index,
  get_from_pool, remove_from_pool,
}
use timer_and_callback.Pool.Addresses.{IsPlaced, index-location}

-- From `i` the list leads through the indices `free` to the end mark `stop`.
abbrev pub Chain : (ℕ → ℕ) → ℕ → ℕ → List ℕ → Type 0
Chain free_list stop i [] = i ≡ stop
Chain free_list stop i (x ∷ free) = (i ≡ x) × Chain free_list stop (free_list x) free

-- The free objects of the pool are `free`, in the order in which they will be handed out.
pub record IsPool (p : MemoryPool) (free : List ℕ) : Type 0 where
  pub chain : Chain p.free_list p.max_number_of_objects p.first_free free
  pub inside : AllBelow p.max_number_of_objects free
  pub distinct : Distinct free
  pub counted : p.number_allocated + length free ≡ p.max_number_of_objects
  pub fits : p.max_number_of_objects < u32_mod

-- The numbers i, i + 1, …, i + n - 1.
abbrev pub range : ℕ → ℕ → List ℕ
range i zero = []
range i (suc n) = i ∷ range (i + 1) n

length-range : (i n : ℕ) → length (range i n) ≡ n
length-range i zero = refl
length-range i (suc n) = omega (arith, length-range (i + 1) n)

has-range : (a i n : ℕ) → a < i → has a (range i n) ≡ false
has-range a i zero h = refl
has-range a i (suc n) h = ground (arith, has-range a (i + 1) n)

range-Distinct : (i n : ℕ) → Distinct (range i n)
range-Distinct i zero = tt
range-Distinct i (suc n) = (has-range i (i + 1) n (omega arith), range-Distinct (i + 1) n)

range-AllBelow : (i n m : ℕ) → i + n ≤ m → AllBelow m (range i n)
range-AllBelow i zero m h = tt
range-AllBelow i (suc n) m h = (omega arith, range-AllBelow (i + 1) n m (omega arith))

fill_free_list_below :
    (n i : ℕ) (free_list : ℕ → ℕ) (j : ℕ) → j < i → fill_free_list n i free_list j ≡ free_list j
unfolding fill_free_list
fill_free_list_below zero i free_list j h = refl
fill_free_list_below (suc n) i free_list j h =
    ground (arith, fill_free_list_below n (i + 1) (update free_list i (i + 1)) j)

fill_free_list-Chain :
    (n i stop : ℕ) (free_list : ℕ → ℕ)
    → i + n ≡ stop
    → Chain (fill_free_list n i free_list) stop i (range i n)
unfolding fill_free_list
fill_free_list-Chain zero i stop free_list e = omega arith
fill_free_list-Chain (suc n) i stop free_list e =
    let set : fill_free_list n (i + 1) (update free_list i (i + 1)) i ≡ i + 1 =
      ground (arith, fill_free_list_below n (i + 1) (update free_list i (i + 1)) i) in
    (refl, rw set (fill_free_list-Chain n (i + 1) stop _ (omega arith)))

-- In a pool made with O_EXCL, of fewer than 2 ^ 32 objects, all objects are free, in ascending
-- order, whatever the memory held before.
pub memory_pool-IsPool :
    (shared_mem object_size max : ℕ) (found : PoolShared)
    → max < u32_mod
    → IsPool (memory_pool true shared_mem object_size max found) (range 0 max)
unfolding memory_pool
memory_pool-IsPool shared_mem object_size max found fits = record {
  chain = fill_free_list-Chain max 0 max found.free_list (omega arith);
  inside = range-AllBelow 0 max max (omega arith);
  distinct = range-Distinct 0 max;
  counted = omega (arith, length-range 0 max);
  fits = fits;
}

-- A write outside of the free indices leaves the chain as it is.
Chain-update :
    (free_list : ℕ → ℕ) (stop i v a : ℕ) (free : List ℕ)
    → has a free ≡ false
    → Chain free_list stop i free
    → Chain (update free_list a v) stop i free
Chain-update free_list stop i v a [] h c = c
Chain-update free_list stop i v a (x ∷ free) h c =
    let kept : update free_list a v x ≡ free_list x = ground arith in
    (c.0, rw kept (Chain-update free_list stop (free_list x) v a free (ground arith) c.1))

-- With no object free `getFromPool` returns NULL and changes nothing.
pub get_from_pool-nil : {p : MemoryPool} → IsPool p [] → get_from_pool p ≡ (null, p)
unfolding get_from_pool
get_from_pool-nil v = ground arith

module _ {p : MemoryPool} {free : List ℕ} where
  -- `getFromPool` hands out the first free object and no other.
  pub get_from_pool-cons :
      {i : ℕ}
      → IsPool p (i ∷ free)
      → ((get_from_pool p).0 ≡ get_memory_location_from_index p i) × IsPool (get_from_pool p).1 free
  unfolding get_from_pool
  get_from_pool-cons v =
      let more : (p.number_allocated == p.max_number_of_objects) ≡ false =
        ground (arith, v.counted) in
      rw more (
        ap (get_memory_location_from_index p) v.chain.0,
        record {
          chain = rw v.chain.0 v.chain.1;
          inside = v.inside.1;
          distinct = v.distinct.1;
          counted = omega (arith, v.counted, v.fits);
          fits = v.fits;
        },
      )

  -- `removeFromPool` of an object that is not free makes it the first free object.
  pub remove_from_pool-cons :
      (i : ℕ)
      → IsPlaced p
      → IsPool p free
      → i < p.max_number_of_objects
      → has i free ≡ false
      → IsPool (remove_from_pool p (get_memory_location_from_index p i)) (i ∷ free)
  unfolding remove_from_pool
  remove_from_pool-cons i placed v inside used =
      let room =
        length-Distinct-le p.max_number_of_objects (i ∷ free) (used, v.distinct)
          (inside, v.inside) in
      let some_used : (p.number_allocated == 0) ≡ false = ground (arith, room, v.counted) in
      let head : update p.free_list i p.first_free i ≡ p.first_free = ground arith in
      rw (some_used, index-location placed i inside)
        (record {
          chain = (
            refl,
            rw head (Chain-update p.free_list _ p.first_free p.first_free i free used v.chain),
          );
          inside = (inside, v.inside);
          distinct = (used, v.distinct);
          counted = omega (arith, v.counted, v.fits, room);
          fits = v.fits;
        })
