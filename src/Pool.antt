-- ===== src/Pool.antt =====
-- include/platform/MemoryPool.h and platform/MemoryPool.cpp: objects of one size in shared memory,
-- with a free list. What several processes share is `PoolShared`; pointers are byte addresses, and
-- 0 is NULL. Names, paths and flags serve the system calls only and are left out, but for the bit
-- O_EXCL of `createFlag`, on which the constructor branches. The log lines are left out.
pub mod Addresses
pub mod Free
pub mod Ownership
pub mod Reuse
pub mod Stack
use timer_and_callback.Base.{
  ℕ, zero, suc, ◌+◌, ◌-◌, ◌*◌, ◌/◌, Bool, leb, ◌==◌, if◌then◌else◌, update,
}
use timer_and_callback.Types.{u32, u64, pred32, sub64}

-- The management area. `pFreeList` has one place for each object; what is read behind it lies in
-- the objects, and is never used.
pub record PoolShared : Type 0 where
  pub number_allocated : ℕ
  pub first_free : ℕ
  pub free_list : ℕ → ℕ

pub record MemoryPool : Type 0 where
  pub shared_mem : ℕ
  pub size_of_shared_management_area : ℕ
  pub total_size : ℕ
  pub object_size : ℕ
  pub max_number_of_objects : ℕ
  pub shared : PoolShared
  pub open shared use *

abbrev pub null : ℕ
null = 0

-- `for (i = 0; i < maxNumberOfObjects; i++) pFreeList[i] = i + 1`, with the rounds left.
pub fill_free_list : ℕ → ℕ → (ℕ → ℕ) → ℕ → ℕ
fill_free_list zero i free_list = free_list
fill_free_list (suc rounds) i free_list = fill_free_list rounds (i + 1) (update free_list i (i + 1))

-- The constructor. `found` is what the shared memory holds when it is mapped at `shared_mem`.
unfoldable pub memory_pool : Bool → ℕ → ℕ → ℕ → PoolShared → MemoryPool
unfolding fill_free_list
memory_pool exclusive shared_mem object_size max_number_of_objects found =
    let set_up : PoolShared = record {
      number_allocated = 0;
      first_free = 0;
      free_list = fill_free_list max_number_of_objects 0 found.free_list;
    } in
    record {
      shared_mem = shared_mem;
      size_of_shared_management_area = u32 (4 + 8 + 8 * max_number_of_objects);
      total_size =
          u32 (u32 (4 + 8 + 8 * max_number_of_objects) + u32 (max_number_of_objects * object_size));
      object_size = object_size;
      max_number_of_objects = max_number_of_objects;
      shared = if exclusive then set_up else found;
    }

abbrev pub objects : MemoryPool → ℕ
objects p = p.shared_mem + p.size_of_shared_management_area

pub get_memory_location_from_index : MemoryPool → ℕ → ℕ
get_memory_location_from_index p index = u64 (objects p + u64 (index * p.object_size))

-- The difference of the addresses is signed, and the division rounds towards 0; a negative quotient
-- is stored in an unsigned number, so the test `index.uint64 < 0` never holds.
pub get_index_from_memory_location : MemoryPool → ℕ → ℕ
get_index_from_memory_location p location =
    if leb (objects p) location
    then (location - objects p) / p.object_size
    else sub64 0 ((objects p - location) / p.object_size)

pub get_from_pool : MemoryPool → ℕ × MemoryPool
get_from_pool p =
    let next = p.free_list p.first_free in
    let taken : PoolShared = record (p.shared) {
      first_free = next;
      number_allocated = u32 (p.number_allocated + 1);
    } in
    if p.number_allocated == p.max_number_of_objects
    then (null, p)
    else (get_memory_location_from_index p p.first_free, record p { shared = taken })

pub remove_from_pool : MemoryPool → ℕ → MemoryPool
remove_from_pool p object =
    let index = get_index_from_memory_location p object in
    let given_back : PoolShared = record {
      number_allocated = pred32 p.number_allocated;
      first_free = index;
      free_list = update p.free_list index p.first_free;
    } in
    if p.number_allocated == 0 then p else record p { shared = given_back }
