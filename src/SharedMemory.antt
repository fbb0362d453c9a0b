-- ===== src/SharedMemory.antt =====
-- platform/PosixSharedMemory.cpp, SystemVSharedMemory.cpp and PosixSemaphore.cpp, with their headers:
-- objects of the system under a name. The calls of the system are parameters; a descriptor is `none`
-- where a call returned -1, and the printed lines are left out.
use Prim.Native.String.{String}
use timer_and_callback.Base.{ℕ, Option, none, some}

pub record PosixSharedMemory : Type 0 where
  pub pathname : String
  pub create_flag : ℕ
  pub mode : ℕ
  pub map_flag : ℕ
  pub size : ℕ
  pub shm_fd : Option ℕ
  pub shared_mem : ℕ

-- `mmap` answers an address, MAP_FAILED included; the flags MAP_SHARED are part of it.
pub record ShmCalls : Type 1 where
  pub State : Type 0
  pub shm_open : String → (create_flag mode : ℕ) → State → Option ℕ × State
  pub ftruncate : (fd size : ℕ) → State → State
  pub mmap : (size prot fd : ℕ) → State → ℕ × State
  pub munmap : (shared_mem size : ℕ) → State → State
  pub shm_unlink : String → State → State

module _ (calls : ShmCalls) where
  open calls use {State, shm_open, ftruncate, mmap, munmap, shm_unlink}

  abbrev with_fd : Option ℕ → PosixSharedMemory → State → PosixSharedMemory × State
  with_fd none m s = (m, s)
  with_fd (some fd) m s =
      let (shared_mem, s') = mmap m.size m.map_flag fd (ftruncate fd m.size s) in
      (record m { shared_mem = shared_mem }, s')

  -- The constructor; `old` is what the member `sharedMem` held before.
  pub posix_shared_memory :
      (pathname : String) (create_flag mode map_flag size old : ℕ)
      → State
      → PosixSharedMemory × State
  posix_shared_memory pathname create_flag mode map_flag size old s =
      let (fd, s') = shm_open pathname create_flag mode s in
      with_fd fd
        (record {
          pathname = pathname;
          create_flag = create_flag;
          mode = mode;
          map_flag = map_flag;
          size = size;
          shm_fd = fd;
          shared_mem = old;
        })
        s'

  -- The destructor.
  pub destroy : PosixSharedMemory → State → State
  destroy m s = shm_unlink m.pathname (munmap m.shared_mem m.size s)

pub record SystemVSharedMemory : Type 0 where
  pub pathname : String
  pub project_id : ℕ
  pub create_flag : ℕ
  pub attach_flag : ℕ
  pub shmctl_flags : ℕ
  pub size : ℕ
  pub shm_id : ℕ
  pub shared_mem : ℕ
  pub key : ℕ

-- `shmget` answers what a `UINT32` keeps of its answer.
pub record SystemVCalls : Type 1 where
  pub State : Type 0
  pub ftok : String → (project_id : ℕ) → State → ℕ × State
  pub shmget : (key size create_flag : ℕ) → State → ℕ × State
  pub shmat : (shm_id attach_flag : ℕ) → State → ℕ × State
  pub shmdt : (shared_mem : ℕ) → State → State
  pub shmctl : (shm_id shmctl_flags : ℕ) → State → State

module _ (calls : SystemVCalls) where
  open calls use {State, ftok, shmget, shmat, shmdt, shmctl}

  -- The constructor, with its arguments in the order of the .cpp file. An answer of `shmget` is not
  -- below 0, so nothing depends on it.
  pub system_v_shared_memory :
      (pathname : String) (project_id size create_flag attach_flag shmctl_flags : ℕ)
      → State
      → SystemVSharedMemory × State
  system_v_shared_memory pathname project_id size create_flag attach_flag shmctl_flags s =
      let (key, s1) = ftok pathname project_id s in
      let (shm_id, s2) = shmget key size create_flag s1 in
      let (shared_mem, s3) = shmat shm_id attach_flag s2 in
      (
        record {
          pathname = pathname;
          project_id = project_id;
          create_flag = create_flag;
          attach_flag = attach_flag;
          shmctl_flags = shmctl_flags;
          size = size;
          shm_id = shm_id;
          shared_mem = shared_mem;
          key = key;
        },
        s3,
      )

  -- The destructor.
  pub detach : SystemVSharedMemory → State → State
  detach m s = shmctl m.shm_id m.shmctl_flags (shmdt m.shared_mem s)

-- The handle that `sem_open` returned, with what it was opened with.
pub record PosixSemaphore : Type 0 where
  pub semaphore : ℕ
  pub name : String
  pub flags : ℕ
  pub mode : ℕ
  pub value : ℕ

pub record SemaphoreCalls : Type 1 where
  pub State : Type 0
  pub sem_open : String → (flags mode value : ℕ) → State → ℕ × State
  pub sem_close : (semaphore : ℕ) → State → State

module _ (calls : SemaphoreCalls) where
  -- The constructor and the destructor.
  pub posix_semaphore :
      (name : String) (flags mode value : ℕ) → calls.State → PosixSemaphore × calls.State
  posix_semaphore name flags mode value s =
      let (semaphore, s') = calls.sem_open name flags mode value s in
      (record { semaphore = semaphore; name = name; flags = flags; mode = mode; value = value }, s')

  pub close : PosixSemaphore → calls.State → calls.State
  close p s = calls.sem_close p.semaphore s
