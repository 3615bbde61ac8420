-- ===== src/Lib.antt =====
-- tools-cxx: a library of C++ tools for Linux servers: logging, event polling, timers,
-- configuration files, sockets, coroutines and a thread pool.
--
-- Each message is formatted by a LogPrint into a LogBuffer and put out by a Log, or appended
-- to a LogFile. A Channel stands for a file descriptor; it asks a Poller for events and calls
-- its callbacks when they come. A TimerScheduler keeps timers in ordered sets and runs their
-- callbacks when its timerfd goes off.
--
-- The modules, and what they model:
--   Prelude: the names shared by all modules, lists and integers over the native numbers.
--   Base.Timestamp: tools/base/Timestamp.h and Timestamp.cpp. A double of seconds is given by
--   the two values that the program reads off it.
--   Base.Trace: tools/base/Exception.h and Exception.cpp, over what backtrace(3) and
--   __cxa_demangle return.
--   Base.CurrentThread: tools/base/CurrentThread.h and CurrentThread.cpp, for one thread.
--   Base.ProcessInfo: tools/base/ProcessInfo.h and ProcessInfo.cpp, given what the system
--   returns.
--   Base.Singleton: tools/base/Singleton.h, as a relation between the states before and after
--   each access of a thread.
--   Log.Buffer: tools/log/LogBuffer.h and LogBuffer.cpp. Log.Buffer.Text relates a buffer to
--   the text written to it.
--   Log.Number: printf_num of tools/log/LogPrint.cpp. The loop over the digits runs on the 31
--   cells of numString.
--   Log.Format: vprintf of tools/log/LogPrint.cpp. The loop runs on one round for each
--   character of the format and one more, which is enough, since every round reads a
--   character. Log.Format.Pieces describes formats by what they print.
--   Log.Logger: tools/log/log.h and log.cpp. Output, flush and abort are events.
--   Log.Logger.Report says what LOG_SYSERR and LOG_SYSFATAL make of the program, and the
--   models of their callers use it.
--   Log.File: tools/log/LogFile.h and LogFile.cpp, over explicit clock readings; streams that
--   fail to open or to write are not modelled.
--   Poller.Channel: tools/poller/Channel.h and Channel.cpp. Masks are numbers, as in poll(2).
--   handle_event is for callbacks that leave m_revents and the channel as they are, run_tests
--   for any callbacks.
--   Poller.Poll: tools/poller/PollPoller.h and PollPoller.cpp. Channels lie in a memory by
--   address, a failed assertion is none, and the result of poll(2) is an argument.
--   Poller.EPoll: tools/poller/EPollPoller.h and EPollPoller.cpp, over an interface to the
--   kernel's interest list; a failed assertion, an abort and undefined behaviour are results
--   of their own. An error of epoll_wait(2) is EINTR, as is one of poll(2).
--   Poller.Choice: tools/poller/Poller.cpp and the methods of Channel.h that call either
--   poller.
--   Timer.Ordered: std::set, as lists in ascending order.
--   Timer.State, Timer.Scheduler, Timer.Events and Timer.Loop: tools/timer. Timers lie on the
--   heap by address; a failed assertion or a dangling pointer is none. The address that new
--   returns, the clock readings and what each callback calls are arguments. A call of
--   add_timer by another thread is one step.
--   Timer.Thread: tools/timer/TimerSchedulerThread.h and TimerSchedulerThread.cpp, with start
--   and quit of TimerScheduler.cpp, as a relation between states.
--   Config.File: tools/config. Config.File.Lookup says which line gives a name its content.
--   Socket.Endian and Socket.Address: tools/socket/Endian.h and InetAddress, with the
--   functions of SocketsOps.cpp on addresses; an address is its bytes.
--   Socket.Calls: the other functions of tools/socket/SocketsOps.cpp. What the system answers
--   is any function of the calls made so far; a failure is reported as Log.Logger.Report has
--   it.
--   Socket.Connection: tools/socket/ConnSocket.h and ConnSocket.cpp, over memories of objects
--   and of guards; what is no defined behaviour in C++ is a result of its own.
--   Socket.Server: tools/socket/ServerSocket.h and ServerSocket.cpp.
--   Threads.Latch and Threads.Pool: tools/base/CountDownLatch.h and CountDownLatch.cpp, and
--   tools/threadpool, as a relation between the states before and after each access to what
--   the threads share.
--   Coroutine.Scheduler: tools/coroutine/Coroutine.h, CoScheduler.h and CoScheduler.cpp. A
--   task is what it calls between its yields, a saved context is what it has still to do, and
--   the rounds of the loop are as many as there are lists of calls of other threads.
--   Coroutine.Thread: tools/coroutine/CoSchedulerThread.h and CoSchedulerThread.cpp, with
--   start and quit of CoScheduler.cpp, as a relation between states; a coroutine that has
--   control may keep it for ever.
--
-- Numbers of 8, 32 and 64 bits keep their wrap-around where the code can reach it; signed sums
-- that overflow are undefined in C++ and are exact integers here. Floating-point numbers are
-- given by what the code reads off them. Not modelled are the marker classes copyable and
-- noncopyable, and the example programs.
pub mod Prelude
pub mod Base
pub mod Log
pub mod Poller
pub mod Timer
pub mod Config
pub mod Coroutine
pub mod Socket
pub mod Threads
