-- ===== src/Lib.antt =====
-- Verification of custom_net_framework: a C++ framework of fibers, a scheduler that runs them on a
-- pool of threads, an IO manager on epoll with timers, hooks that let blocking system calls suspend
-- the calling fiber, socket addresses, loggers, and configuration variables that are read from YAML.
--
-- The parts and how they interact. A worker thread of the Scheduler takes tasks from one queue and
-- runs them as fibers. When the queue has nothing for it, it runs the idle fiber, which is
-- IOManager::idle: it waits in epoll for the events of descriptors and for the next timer, and
-- schedules what waited for them. A hooked call on a socket that is not ready adds an event, and a
-- timer for its timeout, and yields; the event or the timer schedules its fiber again.
--
-- Files and the code they are about, by paths from the repository's root:
-- * Timer, Timer/: sylar/sylar/timer.h and timer.cpp. `TimerManager` is the objects by address (a
--   function from addresses to timers), the std::set as a sorted list of addresses (Timer/Set, with
--   the order in Timer/Set/Order), `tickled` for m_tickled and the previous time. Each method is a
--   function of the state and of the current time; `new` yields an address that the caller gives.
--   The loop over equal times in listExpiredCb is recursion on the list.
--   Timer/Steps has the calls as a step relation.
-- * Fiber, Fiber/: sylar/sylar/fiber.h and fiber.cpp. The states, and each call that changes them.
--   A failed SYLAR_ASSERT is `none`. The switch of stacks is not modelled.
-- * Scheduler, Scheduler/: sylar/sylar/scheduler.h and scheduler.cpp. `pick` is the search under the
--   queue's mutex. Scheduler/System interleaves run() of n threads statement by statement (`Move`),
--   with tasks scheduled in between; Scheduler/Safety is about its counters and stopping(),
--   Scheduler/Race about what the statements outside the mutex allow. For one thread, `begin_turn` is
--   a turn of run() up to the entry of a task, `end_turn` the rest, and Scheduler/Fair composes turns;
--   Scheduler/Lifecycle is the constructor, start() and stop().
-- * IoManager, IoManager/: sylar/sylar/iomanager.h and iomanager.cpp. The table of FdContexts, the
--   pending count, and the calls of schedule, for an epoll that is the parameter `Epoll`
--   (IoManager/Kernel): what epoll_ctl(2) documents. IoManager/Report is the part of idle() for one
--   epoll_event, IoManager/Poll is stopping() and the timeout of epoll_wait, IoManager/Round a round
--   of idle(), with what other threads do while it waits as an argument.
-- * FdManager, FdManager/: sylar/sylar/fd_manager.h and fd_manager.cpp. The kernel's files are the
--   parameter `Files`: what fstat(2), fcntl(2) and ioctl(2) document of O_NONBLOCK, which descriptors
--   of one open file description share. `get` has what other threads do between its two locks as an
--   argument.
-- * Hook, Hook/: sylar/sylar/hook.cpp. fcntl, ioctl, setsockopt, close, and the statements of do_io
--   one by one; Hook/Retry composes them to do_io as a whole, with what the other threads do while
--   the fiber waits as an argument of each turn; Hook/Calls has the calls that pass on to do_io,
--   socket, and connect_with_timeout, whose beginning and end are in Hook/Connect; Hook/Sleep has
--   the timers of the sleep calls.
-- * Mutex, Mutex/: the guards and CASLock in sylar/sylar/mutex.h. A guard acts on any mutex, given as
--   what its calls make of a state (Mutex/Guards); the CASLock is used by threads whose calls are
--   those that guards make (Mutex/Exclusion).
-- * Thread, Thread/: sylar/sylar/thread.h and thread.cpp. The creating thread and the new thread take
--   their statements in any order, with the object, which may be destroyed, between them.
-- * Semaphore, Semaphore/: FiberSemaphore in sylar/sylar/mutex.h and mutex.cpp. Semaphore/Order
--   has its calls as a step relation, with the history of waiting fibers and tokens.
-- * Log, Log/: sylar/sylar/log.h and log.cpp. Log/Level has LogLevel, Log/Pattern the LogFormatter: the
--   loops of init() over the pattern as recursion on what is left of it, the format items, and what
--   they print for a `Printer` of numbers and times. Log/Logger has Logger and LoggerManager, with the
--   appenders as objects by address; Log/Logger/Steps is any sequence of their calls, and
--   Log/Logger/Formatters is about what they leave the appenders with.
--   Log/FileAppender is FileLogAppender with the contents of its file, Log/Defines the listener of
--   LogIniter on the variable of the logger definitions. Log/Casts has the casts of the definitions
--   from and to YAML text and toYamlString, for a yaml-cpp given by `YamlText` of Config/Casts and
--   `YamlKeys`.
-- * Config, Config/: sylar/sylar/config.h and config.cpp. ConfigVar with its listeners, Lookup, and
--   LoadFromYaml. The YAML tree is the parameter `Yaml`, the types with their operator== and their
--   casts from text are `Values`. Config/Members describes the members of a tree by a relation.
--   Config/Casts has the casts of containers from and to text, for a yaml-cpp that is the parameter
--   `YamlText`: how nodes are built, printed and loaded again.
-- * Endian, Endian/: sylar/sylar/endian.h, byteswap on a little-endian machine.
-- * Address, Address/: sylar/sylar/address.h and address.cpp. An address is its bytes and its length;
--   Address/Text reads the text that IPv6Address::insert prints, for a stream that prints hexadecimal
--   numbers, by the form of IPv6 addresses; Address/Compress is about its colons.
-- * Prelude, Prelude/: lists, texts as lists of bytes, machine words and counting, shared by the
--   parts.
--
-- Numbers are natural numbers; uint64_t and int conversions are written out (`u64`, `sub64`, `u32`).
-- Loops are recursion on lists, but for two on fuel. `read_pieces` in Log/Pattern, the outer loop of
-- LogFormatter::init, has the pattern's length and one: each turn takes a byte at least.
-- `list_all_member` in Config has one more than the depth of the tree, a unit for each level. `now` is
-- what GetCurrentMS returned.
--
-- Each method that the code runs under one mutex is one step. Between the two locks of
-- listExpiredCb or of FdManager::get, and between two steps, other threads may do anything that the
-- steps allow. addEvent, which takes the lock of the table and then that of the context, is one step
-- all the same, and so is the unlocked store of FiberSemaphore::reset.
--
-- Not modelled: the switch of contexts and stacks (ucontext), the waking of threads by a pipe, the
-- output of variables and of the logger manager as YAML, boost::lexical_cast, the classes that only
-- pass on to pthread mutexes and semaphores, and the cases of fcntl that do the same. Descriptors are
-- natural numbers: calls with a negative one are not modelled. An event is added on a thread that has a
-- scheduler.
pub mod Address
pub mod Config
pub mod Endian
pub mod FdManager
pub mod Fiber
pub mod Hook
pub mod IoManager
pub mod Log
pub mod Mutex
pub mod Prelude
pub mod Scheduler
pub mod Semaphore
pub mod Thread
pub mod Timer
