-- ===== src/Lib.antt =====
-- Timers that call back: a library in which tasks (processes) schedule timers that lie in shared
-- memory, and one task, TimerTask, finds the timers that are due and tells the task of each by a
-- message.
--
-- The parts, and the files that model them:
-- * The heap of timers (include/platform/TimerMinHeap.h, platform/TimerMinHeap.cpp, struct
--   TimerTaskShared): MinHeap. The array of 1024 pointers is a function from the index, a pointer is a
--   number, and `fires p` is the firing time of the Timer object at p, if there is one. Children:
--   Order (what a heap is), Up (upHeapify), Down (downHeapifyFromIndex), Remove (removeFromIndex and
--   the step that removeSpecificFromIndex repeats), Search (removeSpecificFromIndex), Removal (the
--   order after a removal), Stale (a heap that has become empty, or whose last pointer leads to no
--   timer), Bag (the heap as its clients see it: histories of calls against a bag of timers),
--   Unordered (heaps to which the same timers were added in different orders) and Ends (the end of the
--   loops, whatever the array leads to).
-- * The pool of objects in shared memory (platform/MemoryPool.cpp): Pool, with byte addresses as
--   numbers. Children: Addresses, Free (the free list), Ownership (histories of calls), Reuse, Stack
--   (histories of calls against a stack of places, and those of test/pool.cpp).
-- * Timers (include/platform/Timer.h, platform/Timer.cpp, platform/TimerUtils.cpp): World is the state
--   that the tasks share (the Timer objects by address, the heap, the pool, the semaphore, the
--   callback objects, the messages sent) with the time of day and rand () as streams; Timer has one
--   function for each method, from a World to its result and the new World. Children: Times, Ready,
--   Create (new), Delete (delete of a timer in the heap), Stopped (delete after stop), Fuzzy (a time
--   between two timeouts), Schedule, Stop, Restart, Callback, and Programs: schedule, stop, cancel,
--   restart and changeFiringTime as single steps (Programs/Stopping, Scheduling, Methods), which the
--   tasks of Programs/Clients interleave (Keeping, Serial, Interleaving).
-- * The loop that fires timers (platform/TimerTask.cpp) and the receiver of its messages (getMessages
--   of test/timerPoolTest.cpp): TimerTask, with Fire and Postpone for a round in which an active and
--   an idle timer is due, Room for queues that have room and Full for those that have not, Cycle and
--   Firings for rounds and turns of the receiver one after the other,
--   Waiting for rounds until the timer at the top is due, Drain for rounds until the heap is empty,
--   Blocked for a timer that is done at the top of the heap, Stuck for how it gets there, Late for the
--   rounds after a top of three timers has been fired, Dangling for a round after the deletion of the
--   last timer of the heap, Lifecycle for a timer from new to delete, Made and Startup for a task that
--   makes and schedules timers (Startup/Joined, Drained, OneShots and Answered: one more timer, the
--   rounds that fire them all, and the turns of the receiver after them), Receivers for many messages
--   one after the other (Receivers/Turns), System, Kept, Rounds and Invariant for the methods, the
--   receiver and the rounds in any order, Race for a call that falls into a round, and Initialize for
--   the fork and the queues of TimerTask::initialize.
-- * Message queues (platform/PosixMessageQueue.cpp): Queue, over a record of the calls of <mqueue.h>.
--   Children: Fifo (what those calls are relied on to do) and Delivery (from sender to receiver).
-- * Mutexes, threads, shared memory and named semaphores (platform/Mutex.cpp, PosixThread.cpp,
--   Runnable.cpp, PosixSharedMemory.cpp, SystemVSharedMemory.cpp, PosixSemaphore.cpp): Mutex, Thread and
--   SharedMemory, over records of the calls of the system.
-- * Messages and task ids (include/platform/PosixMessageQueueObject.h, TaskId.h): Message.
-- * Serialization (common/Util.cpp): Wire, with streams and buffers as lists of bytes. Children:
--   RoundTrip, Text, Split, Floats, Words (the macros of include/common/Util.h), Buffers (buffers
--   against streams). Its functions that ask the system: Host.
-- * The base class of tasks (include/platform/Task.h): Task.
-- * Callback objects (include/platform/TimerCallback.h, platform/TimerCallback.cpp) and the classes of
--   test/ whose memory comes from a pool: Callback.
-- * Result codes, constants and machine integers (include/common/Types.h): Types.
-- * The main programs of test/periodicTimerTest.cpp, test/longTermPeriodicTest.cpp and
--   test/timerPoolTest.cpp: Drivers, what they do with timers. Children: Allocation, Overflow (the array
--   that keeps the timers).
-- * Base has the shared helpers, and Tests the theorems at concrete arguments.
--
-- How the parts interact: Timer calls the heap through `on_heap`, which hands it the firing times of
-- the Timer objects as they are then, and gets its memory from Pool through operator_new and
-- operator_delete. TimerTask takes the top of the heap, removes it, and sends the index of the timer
-- in the pool; the receiver turns the index into the address again and calls process_a_callback.
-- World keeps the capacity of each task's queue, if it was opened, and the messages that were sent
-- and not yet received, by queue in a list: a send to a queue that was not opened fails, one to a
-- full queue waits, and a receiver takes the oldest message of its own queue. Queue shows for one
-- queue that messages arrive whole and in order. Initialize opens the queues through Queue.
--
-- Conventions. Undefined behaviour (an index outside of the array, a pointer to no object, a division
-- by zero) is the outcome `fault`; a wait on a semaphore at 0, a send to a full queue and a receive
-- from an empty one are `blocked`, as no other call runs within a method; a failed assert is
-- `aborted`. A UINT32 and a UINT64 wrap at 2 ^ 32 and 2 ^ 64, which is written out. Memory that the
-- code does not initialise is an argument or the value that was there before.
--
-- Bounds and fuel. up_loop gets index + 1 rounds, and the index falls in each; down_loop gets one
-- round more than there are timers, and the index grows in each; remove_specific_from_index gets two
-- more than there are timers, and its parent grows by one in each. The theorems on these functions
-- say that they return, so the fuel is enough.
--
-- What is not under src/ (the calls of the system) is a parameter: a record of functions on a state
-- of the system, with what the manual pages say of them as the fields of IsFifo where a theorem needs
-- it.
--
-- Not modelled: log output but for the lines of the queues and the mutexes that tell of errors; what a
-- task does in its thread and what a callback does; the abstract TimedExpiryBuffer, which includes a
-- file that is not there; the definitions of common/Debug.h and common/Globals.h, which are output and
-- comments; and what the main programs under test/ do besides making, scheduling and deleting timers.
-- Calls of several tasks are taken one after the other, but in Programs, where five of the methods are
-- interleaved step by step; a call of the heap is one step there. TimerTask reads the heap without the
-- semaphore, and of the interleavings of its steps only the one in Race is modelled.
pub mod Base
pub mod Types
pub mod MinHeap
pub mod Pool
pub mod Wire
pub mod Message
pub mod World
pub mod Timer
pub mod TimerTask
pub mod Queue
pub mod Mutex
pub mod Thread
pub mod Host
pub mod SharedMemory
pub mod Task
pub mod Callback
pub mod Drivers
pub mod Tests
