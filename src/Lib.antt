-- ===== src/Lib.antt =====
-- A model of the native part of the Java profiler, the C++ files under ddprof-lib/src/main/cpp, with
-- the theorems that make its data structures correct. All of it runs in signal handlers and between
-- them, so these structures neither block nor call the allocator of the C library where they can
-- avoid it, and they share their memory between threads through atomic accesses.
--
-- Base holds what the parts share: tests on numbers and their decisions, lists measured by native
-- numbers, arrays as functions of the index, `>>=` on Option, bits by division and remainder, sums.
--
-- The parts, each in a module of its own, with its proofs in the modules below it:
--
--   SpinLock (spinLock.h) guards the buffers of the recorder, the storages and the failure counts. The
--   lock is a 32-bit word; SpinLock/Threads has any number of threads interleaved at its atomic
--   accesses as a step relation, SpinLock/Invariant and SpinLock/Safety the proofs by induction on it, and
--   SpinLock/Progress the runs that continue a state.
--
--   Buffer (buffers.h) is what an event is written to before the file: `put8` to `put64`, the variable
--   length integers `putVar32` and `putVar64`, strings, and the overwriting of a length field that was
--   skipped. Buffer/Reader reads such bytes back, in the way of a JFR parser. The loop of `putVar32`
--   recurs on accessibility of `<`, so no bound is assumed; that of `putVar64` has its three rounds.
--
--   Dictionary (dictionary.cpp, dictionary.h) numbers the names of classes, symbols and packages. The
--   tables, which the code allocates and links, are a heap from table numbers to tables. `lookup` walks
--   from table to table; its fuel is the number of allocated tables, which is enough since a link goes
--   to a table that was allocated later.
--
--   CallTraceStorage (callTraceStorage.cpp, callTraceStorage.h) gives every stack trace an id: `put` is
--   split into the search (`probe`, whose rounds are bounded by the capacity, as the code's are), the
--   claim of a free slot (`settle`), the count, and the shared lock around them, which is the SpinLock.
--   `clear` takes the lock exclusively, and is none where it waits for it without end. The allocator of
--   the traces is taken to succeed; its chunks are those of LinearAllocator, not a part of this state.
--
--   CodeCache (codeCache.cpp, codeCache.h) has the symbols of a native library and its table of frame
--   layouts (dwarf.h). Both binary searches are the loop `bisect`, with the tests of either; its fuel is
--   the number of entries, and each round leaves fewer of them.
--
--   Dwarf (dwarf.cpp, dwarf.h) parses call frame information into the table of frame layouts that
--   CodeCache searches. Dwarf/Reading has the reads as a state monad over the parser, Dwarf/Machine and
--   Dwarf/Expression the instructions of parseInstructions and parseExpression, one clause for a case,
--   and Dwarf/Parse the headers. The image is a list of bytes, and a read behind it is a fault. A loop
--   over bytes has a round for each byte that it may read, which is enough since every round moves on.
--
--   Contexts (context.cpp, context.h) holds the tracing contexts by thread id, in pages that are shared
--   with Java code. Of that code, its module has the three writes of `setContext`
--   (ddprof-lib/src/main/java/com/datadoghq/profiler/JavaProfiler.java).
--
--   ThreadInfo (threadInfo.cpp, threadInfo.h) has the names and Java ids of threads, in two maps, which
--   are the lists of Base/Assoc.
--
--   ThreadFilter (threadFilter.cpp, threadFilter.h) is the set of the threads to sample, a bitmap that
--   is allocated in pieces; ThreadFilter/Init reads its option, with a round for each character of it,
--   and ThreadFilter/Collect lists it, with a round for each bit of a word.
--
--   UnwindFailures (unwindStats.h) counts the failed stack walks by the name of the method or stub.
--   UnwindFailures/Stats has the table of all threads, which their tables are merged into.
--
--   Arguments (arguments.cpp, arguments.h) reads the options of the agent. Arguments/Numbers has
--   `strtol` and parseUnits, Arguments/Labels and Arguments/Cases the simulated switch, Arguments/Parse the loop
--   over the arguments, and Arguments/Pattern the expansion of file names, with a round for each
--   character of the pattern.
--
--   LivenessTracker (livenessTracker.cpp, livenessTracker.h) keeps the allocation samples whose objects
--   still live. It is set up from Arguments (LivenessTracker/Initialize), filled by `track`, cleaned up
--   after collections and flushed into the recording (LivenessTracker/Flush). What the virtual machine
--   answers is a parameter: which objects live, and whether locks and memory are to be had.
--
--   LinearAllocator (linearAllocator.cpp, linearAllocator.h) gives CallTraceStorage its memory. Its
--   chunks are a heap from chunk numbers to chunks. `alloc` has fuel for its outer loop; `clear` has a
--   round for each chunk number up to that of the tail, which is enough since each chunk comes after the
--   one that it is linked to. Sums of sizes wrap at 2^64.
--
--   RustDemangler (rustDemangler.cpp) makes Rust symbols readable. RustDemangler/Pieces has a
--   reference for the mangling, item by item. `demangle` has a round for each character before the hash,
--   and each round takes one at least; texts of fewer than 19 characters, where the code's subtraction
--   wraps, are not its domain.
--
--   ProfiledThread (thread.h, thread.cpp, threadLocalData.h, asyncSampleMutex.h) is the data of a thread.
--   Its UnwindFailures are those of the module of that name. ProfiledThread/Mutex and
--   ProfiledThread/Nesting are the guard of asynchronous calls with the signal handlers that nest on a
--   thread; ProfiledThread/Tls has the thread-local slots and the objects in them, on a heap from
--   addresses to objects, and ProfiledThread/Safety runs its operations one after another. The thread that
--   puts the old signal handler back is left out.
--
--   Profiler (profiler.h, profiler.cpp) and the life of its recording (flightRecorder.cpp, in
--   Profiler/Recorder) tie the parts together: `start` resets the Dictionary of class names, the
--   CallTraceStorage and ThreadInfo, picks and starts the engines of the Arguments, and opens the
--   recording; samples take one of sixteen SpinLocks and put their traces (Profiler/Samples), and `dump`
--   and `stop` take them all. Profiler/Control, Profiler/Stopping and Profiler/Action have its commands.
--   What the JVM, the system and the engines answer during a call is a World, which may differ from call
--   to call. A lock that is waited for without end is `none`. Which engines are started and enabled, the
--   dlopen hook and the thread events are fields of the Profiler. The stack walkers, the log and the
--   output of the commands are left out, as are the calls that set up other parts: the thread filter,
--   the slots of existing threads, symbols, metadata and counters.
--
-- Conventions: an `int` or `u32` is its pattern below 2^32 and wraps by `% 2 ^ 32`, a `u64` likewise; a
-- C string is the list of its bytes without the terminator; an access outside of an array is `none`
-- where the code can make one. Allocations succeed, but for LivenessTracker, LinearAllocator, Arguments
-- and Profiler, where their answer is a parameter; the counters of Counters that are only statistics are
-- kept where their component shows them. Operations are those of one thread, but for SpinLock.
--
-- Not modelled: the engines that deliver samples, the glue to the JVM and JVMTI, system calls, symbol
-- files and the Java side but for `setContext`, since they are calls of code that is not here; floating point numbers, which
-- are a type parameter where an option holds one; the races of several threads inside the parts other
-- than SpinLock.
pub mod Base
pub mod Arguments
pub mod Buffer
pub mod CallTraceStorage
pub mod CodeCache
pub mod Contexts
pub mod Dictionary
pub mod Dwarf
pub mod LinearAllocator
pub mod LivenessTracker
pub mod ProfiledThread
pub mod Profiler
pub mod RustDemangler
pub mod SpinLock
pub mod ThreadFilter
pub mod ThreadInfo
pub mod UnwindFailures
