-- ===== src/Lib.antt =====
-- JCoz, a causal profiler for Java: a JVMTI agent that samples the program's threads, picks a line,
-- and runs experiments in which every other thread is delayed whenever that line runs.
--
-- The parts, and the files that model them:
-- - Base: lists, results, and machine integers over the native numbers. A result is a value or the
--   way in which the process ends: an exit with its message, a standard exception, a failed assert,
--   or a use of a pointer that points to no object.
-- - Text: the C and C++ strings that the agent uses, as lists of bytes, with std::stoi, std::stol
--   and std::getline. Printing has operator<< for whole numbers.
-- - Scope: the scope tests of src/entry.cc (is_class_fqn_prefix to is_in_allowed_scope, and the two
--   checks for the progress class) and prepare_scope of src/profiler.cc.
-- - Signature: cleanSignature of src/profiler.cc, on the bytes of the string with its zero.
-- - Args: src/args.h, with print_usage. Options: ParseOptions of src/profiler.cc, from the option
--   string to the settings.
-- - Frame: call frames of src/stacktraces.h with their order, and the line and code ranges that
--   runAgentThread computes from a line table.
-- - Experiment: struct Experiment of src/profiler.h, update_experiment_length,
--   calculate_random_speedup, and the delay, with the float arithmetic rounded to 24 bits.
-- - Sleep: jcoz_sleep of src/profiler.cc over a kernel, which is a parameter.
-- - Profiler: the static state of class Profiler that the threads share, and each thread's curr_ut.
--   Threads has addUserThread, removeUserThread with its four steps, and HandleBreakpoint; Handler
--   has Handle, the signal handler, with its sampling branch and its experiment branch; Cycle,
--   Synchronisation and Lead follow the delays over many signals. ScopeLock has in_scope_lock,
--   which the handler can find taken by the thread that it interrupts; LockOrder has the three spin
--   locks of the class with every function that takes them and the handler that interrupts those
--   functions.
-- - Progress: addProgressPoint and clearProgressPoint, with the calls that they make of JVMTI.
-- - Classes: CreateJMethodIDsForClass of src/entry.cc with its lock, an int that is compared with a
--   pthread_t, the loop of run_profiler over the loaded classes, and addInScopeMethods. Memory has
--   the same functions, and addProgressPoint, with the memory that JVMTI hands out.
-- - Jvmti: that memory as a ledger, and class JvmtiScopedPtr of src/globals.h. Atomic: the two
--   atomic operations of src/globals.h.
-- - Startup: Agent_OnLoad of src/entry.cc with PrepareJvmti and RegisterJvmti.
-- - Lifecycle: run_profiler, OnClassPrepare and OnVMDeath of src/entry.cc, with Start and Stop.
--   Disposition has SetAction, the installation of the signal handler.
-- - Callbacks: OnThreadStart, OnThreadEnd and SIGPROF with the accessors of src/globals.h, and
--   signal_user_threads of src/profiler.cc.
-- - BciHits: src/bci_hits.h and src/bci_hits.cc; Signatures has the memory of the class names in
--   them, Printed the text of the dump.
-- - Agent: the agent's own thread, runAgentThread and runExperiment, and Stop. System has the whole
--   thread as a machine of phases, Loops the two loops that sleep. Safe and Room are about the
--   objects and the frame buffer over a whole run, Ranges about the array location_ranges, which
--   the two functions make and delete.
-- - Output: the lines that runExperiment appends to the output file, and a reader of them.
-- - Examples: tests and concrete runs.
--
-- How they interact. The signal handler and the agent change one state, Profiler. The spin locks of
-- the source make each of their critical sections one step outside Profiler/LockOrder. What stands
-- under no lock is cut into steps where the interleaving matters: removeUserThread into the
-- counting of the thread's points, their clearing, the delay, and the deletion, and the handler's
-- branch inside an experiment into charging, pausing and flushing. So an interleaving is a sequence
-- of steps: the relations of Profiler/Objects, Profiler/Points and Callbacks/Servable. The agent's
-- thread is cut at its sleeps, where the user threads' events come in between: a run of
-- Agent/System is a sequence of such steps, events and calls of Stop. Stop is two steps of it,
-- before and behind its wait. A session of Lifecycle is a start, prepared classes, and the VM's
-- death, which waits for the last phase of such a run. JVMTI, AsyncGetCallTrace, the kernel, the
-- clock, rand() and the shuffle are arguments of the definitions that use them; what is asked of
-- them stands in the theorems that need it.
--
-- Bounds and fuel. unsigned int, long, unsigned long and atomic counters wrap as in the source; a
-- negative index of the frame buffer, from 2^31 frames on, is a fault. The loop of jcoz_sleep has
-- fuel for one round a nanosecond and two more, enough because each interruption leaves less to
-- sleep. The loop of std::getline has fuel for each byte and one more, enough because each round
-- reads a byte. Printing a whole number has fuel for the number and one more, enough because each
-- round divides by ten; a speedup is printed as floats are that are zero or lie from 10^-4 to below
-- 10, which holds for every value the experiment draws. The sampling loop has a round of fuel for
-- each SIGNAL_FREQ that it needs and one more, enough because each sleep is longer; the loop of an
-- experiment one for each millisecond of its length and one more, enough because each round sleeps
-- for one. The other loops are structural.
--
-- Not modelled: logging; the opening, flushing and closing of files; the branches of src/globals.h
-- for other platforms than Linux on x86-64, and bit_cast; setters and getters of one field. The
-- error macros of src/globals.h are the early returns of the functions that use them. Start
-- positions of a line table are not narrowed to jint, as they are indexes into a method's code,
-- which is at most 65535 bytes long. Handle's reads of location_ranges are not part of the array's
-- memory in Agent/Ranges, as no lock orders them with its deletion. Steps are sequentially
-- consistent, so memory fences change nothing; overflow of a plain long, which C++ leaves
-- undefined, wraps here.
mod Base
pub mod Startup
pub mod Text
pub mod Scope
pub mod Signature
pub mod Args
pub mod Options
pub mod Frame
pub mod Experiment
pub mod Sleep
pub mod Profiler
pub mod Progress
pub mod Jvmti
pub mod Atomic
pub mod Classes
pub mod Lifecycle
pub mod Callbacks
pub mod BciHits
pub mod Agent
pub mod Output
mod Examples
