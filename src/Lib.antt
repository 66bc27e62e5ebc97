-- ===== src/Lib.antt =====
-- A model of the core of vmill, an emulator that lifts and runs snapshots of programs.
--
-- The modelled parts are the memory of the emulated program and its shadow memory, the decoding of
-- its machine code into traces, the executor's search for the lifted code of a task, the file-backed
-- caches, and of the emulated Linux the tasks, the threads, the futexes, the calls on memory and
-- files, and the calls on sockets. An
-- AddressSpace (vmill/Program/AddressSpace.cpp) has a list of memory ranges and, per page,
-- permissions and tables from a page to its range. A range (vmill/Program/MappedRange.cpp) is
-- invalid, empty, an array of bytes, or a copy-on-write view of an array that several address
-- spaces share since a fork. The executor's intrinsics and the emulated system calls work on
-- memory through AddressSpace only.
--
--   Prelude            lists, results and machine words that all modules share
--   Range              MappedRange: the classes of ranges, Read, Write, Clone, Copy
--     Range/Duplicates   Clone, Copy and the code versions
--     Range/Frame        the invariant of the store, and what a read depends on
--     Range/Changes      what a new or replaced range leaves alone
--     Range/Clone, Range/Bytes, Range/Copies    the theorems about Clone, Write and Copy
--   Removal            RemoveRange of AddressSpace.cpp
--     Removal/Disjoint, Removal/Coverage        what it removes, keeps and loses
--   Space              the state of AddressSpace and CreatePageToRangeMap
--     Space/Mapping      constructors, Kill, SetPermissions, AddMap, RemoveMap, IsMapped
--     Space/Lookup       FindRange, FindWNXRange and their caches; Space/Caching their theorems
--     Space/Hole         FindHole
--     Space/Fork         cloning an address space
--     Space/Sorting, Space/Index, Space/Permissions    the page tables and the permissions
--   Reads, Writes      TryRead, TryReadExecutable, TryWrite and the virtual addresses
--     Writes/Killed      a write after Kill
--   Area               AreaAllocator (vmill/Util/AreaAllocator.cpp), the bump allocator
--     Area/Filling, Area/Allocating, Area/Success    break points, an allocation, and its success
--   Zone               ZoneAllocator (vmill/Util/ZoneAllocator.cpp), which the arrays take from
--     Zone/Serving       where an allocation of the zone comes from
--   Transfers          vmill/Runtime/Generic/Memory.cpp, copies between the guest and the host, and
--                      the pages of the heap of vmill/Executor/Memory.cpp
--     Transfers/RoundTrip    what is written is read back
--   Tasks              tasks and the scheduler (vmill/Runtime/Linux/Run.cpp, vmill/Runtime/Task.h)
--     Tasks/Ring         the list and the ring of tasks
--     Tasks/Faults       what vmill/Executor/Runtime.cpp records of the faults of a task
--   Futex              vmill/Runtime/Linux/Futex.cpp: a round of a wait, and waking
--     Futex/Operators, Futex/Call    the combined operation, and the system call
--     Futex/Waking, Futex/Round      waking once round the ring
--     Futex/Waiting      a wait as a relation of steps
--   Mapped             vmill/Runtime/Linux/MM.cpp: the tests of mmap, and what the calls work on
--     Mapped/Mmap        brk, mmap, munmap, mprotect; Mapped/Spaces fills in the address space
--     Mapped/Placement, Mapped/Refusals, Mapped/Permissions, Mapped/Effects,
--     Mapped/Loading     the theorems
--   Replies            what a system call returns
--   Decoder            vmill/Arch/Decoder.cpp: decoding machine code into traces
--     Decoder/Lists, Decoder/Rounds, Decoder/Closure    the sets, and a round of the loop
--     Decoder/Traces, Decoder/Leftover    all traces, and what a failed one leaves
--   Calls              vmill/Runtime/Generic/SystemCallABI.h and Linux/X86.cpp: where a system call has its arguments and
--                      its result
--     Calls/Arguments    TryGetArgs
--   Threads            vmill/Runtime/Linux/Thread.cpp: set_thread_area
--     Threads/Clone, Threads/SystemCalls    clone; the other calls of Thread.cpp, those of
--                      Process.cpp, and exit
--     Threads/HyperCalls the entry and the return of a system call (Linux/X86.cpp)
--     Threads/Segments, Threads/Children, Threads/Slots    the theorems
--   Executor           vmill/Executor/Executor.cpp: finding the lifted code of a task, and the code cache's map
--     Executor/Caching, Executor/Live    what it keeps, and what it finds
--     Executor/Stuck     code that is never decoded again
--   Tasks/Links        the links of the ring and of a new task
--   Tasks/Running      vmill/Executor/Runtime.cpp and Coroutine.cpp: running, pausing and resuming a task, and the
--                      loop of __vmill_resume
--   Tasks/Passes       what a pass of that loop runs
--   Files              vmill/Runtime/Linux/IO.cpp: reading, writing and opening files
--     Files/Gathering    what writev gives to the host
--     Files/Paths        vmill/Runtime/Linux/FS.cpp: access, lseek, getcwd, mkdir, rmdir, dup, eventfd
--     Files/Stale        what mkdir takes for a path that it cannot read
--   Transfers/Accessing    which addresses the access tests look at
--   FileBackedCache    vmill/Util/FileBackedCache.h: entries in a file that is mapped
--     FileBackedCache/Bytes, FileBackedCache/Extending    the bytes of the file, and adding entries
--     FileBackedCache/Reopening    what is there when the file is opened again
--   Shadow             vmill/Program/ShadowMemory.h and ShadowMemory.cpp
--     Shadow/Divisor     the size of a page, as a least common multiple
--     Shadow/Pages       mapping a page at a fault
--     Shadow/Flags       references to bits
--   Net                vmill/Runtime/Linux/Net.cpp: sockets, their addresses and accept
--     Net/Data           sending, receiving and options
--     Net/Messages       sendmsg and recvmsg
--     Net/SocketCalls    socketcall; Net/Dispatch what it runs
--     Net/Delivery       what recvmsg loses
--
-- Correspondence. A function has the name of the source's, in lower case with underscores; the
-- overloads of TryRead and TryWrite are told apart by a suffix: try_read for a number of bytes,
-- try_read_byte for one, try_read_word for the overloads that the macros make. Objects
-- that the source shares by pointer live in the record Store, from keys to ranges, that is passed
-- from call to call; `new (this) T(...)` replaces the object at its key. An operation returns an
-- Outcome: done with its result, check_failed where a CHECK fails, and undefined where the C++
-- has no defined behaviour, such as an access outside of an array or a use of an object that is not
-- there. A hash table or set keyed by pages is a function; a vector is a list; a cache of raw
-- pointers is a function from slots to keys.
--
-- Bounds and fuel. A uint64_t is a natural number with its wrap-around written out (add64, sub64).
-- The constructor of a copy-on-write range follows the parents to the last one, and the invariant
-- IsValid says that this is an array, so a chain is two ranges long: that is the fuel `chain` of
-- the functions that follow it, and the theorems that an operation succeeds include that it is
-- enough. The loops over pages count their rounds; they take a limit that is at least a page below
-- 2 ^ 64, so that the source's loop variable does not wrap around. The loop of FillWithBreakPoints
-- has a round for each byte of its range as fuel, and takes at least one byte per round. The loop
-- of DoWake has as many rounds as fuel as there are tasks, and a pass of __vmill_resume too. The
-- loop of the decoder over its work list takes at most three rounds per program counter, and its
-- outer loop some number of rounds, which the theorem on it gives; the loop of mmap that reads a
-- file has a round per byte. The allocators' sums of addresses and sizes are taken not to
-- overflow.
--
-- Not modelled. Logging, LogMaps and DCHECK, which a release build leaves out; memory of the host
-- running out under a range; destructors. mmap is a parameter of the allocators. std::sort may
-- order ranges of equal base in any way, and the model keeps their order. The digest of the code
-- versions is a parameter. The bytes of a value of several bytes are in the host's memory order,
-- as the source copies them. Of the emulated operating system, the parts above are modelled, with
-- guest memory as the record Guest, and a task that yields as the end of a function. Lifted code is
-- a parameter: of the scheduler what it does to a task, and of the executor the functions
-- that the lifter and the compiler make. The calls of stat, readlink,
-- getdents64, fcntl64 and ioctl, the clocks, the ABI of AArch64, the tools and the files of snapshots
-- are not modelled.
pub mod Prelude
pub mod Range
pub mod Removal
pub mod Space
pub mod Reads
pub mod Writes
pub mod Area
pub mod Calls
pub mod Decoder
pub mod Executor
pub mod FileBackedCache
pub mod Files
pub mod Futex
pub mod Mapped
pub mod Net
pub mod Replies
pub mod Shadow
pub mod Tasks
pub mod Threads
pub mod Transfers
pub mod Zone
