-- ===== src/Lib.antt =====
-- A model of the inter-process communication notes of this repository: the wrappers round Unix
-- system calls, the messages that go over pipes, and the demonstrations of threads that share data.
--
-- Base: the names that all files share. System: errno, the answers of the kernel and the ways in
-- which a call ends. The kernel and the C library are not in the repository: the wrappers are
-- functions of the list of answers that the kernel gives to their system calls, in order, and texts
-- that the C library formats are parameters.
--
-- Errors: common_lib/error_print.cpp. Every wrapper ends in one of these reporters; a negative value
-- makes err_sys and err_quit leave the process with it. Words: strtovec and hints_strtovec of
-- common_lib/stdin_input.cpp, if_run and if_quit_echo of common_lib/if_quit_or_run.cpp.
-- UnixIo: Read, Write and readline_slow of unix_I_O_FILE/IO_read_write.cpp; their loops recur on the
-- answers, and where the answers end first the call is blocked. Mesg: pipe_FIFO/my_mesg.h and
-- my_mesg.cpp, which use Read and Write; a long is eight bytes, the low one first, and PIPE_BUF is
-- 4096. Dialogue: mesg_client and mesg_service of the same file, which put Read, Mesg_send and
-- Mesg_recv together; their loops recur on the turns, what the system contributes to each round.
--
-- MessageHeader, Descriptors, Datagrams: unix_I_O_FILE/IO_recvmsg_sendmsg.cpp. The first models the
-- functions that fill a msghdr, with the frames of the stack, since the header points into them; the
-- other two what the callers make of the answers of recvmsg(2) and sendmsg(2). Files:
-- unix_I_O_FILE/IO_File_creat-open-read-close.cpp, a file as its bytes; the loop of file_map has the
-- length of the mapping and one as its fuel, which is more than its rounds. Signals: the handlers of
-- process_signal/process_signal.cpp and realtime_signal.cpp. FileLock: process_file_lock/file_lock.cpp.
-- Processes: process/process_create_fork_exec_system_popen.cpp. Clock: common_lib/get_time_debug.cpp.
-- Terminal: the readers of std::cin in common_lib/stdin_input.cpp. Broadcast: send_all and recv_all of
-- unix_I_O_FILE/IO_recvfrom_sendto.cpp, the wrappers of IO_recv_send.cpp there; the fuel of send_all
-- bounds its rounds, which are ten.
--
-- ThreadPool: thread_C++/thread_pool/thread_pool.cpp, a step relation with any number of workers,
-- one client and the mutex and condition variable as POSIX describes them. Semaphores: the named and
-- the unnamed pair of Posix_semaphore/semaphore_test.cpp, one producer and one consumer, as a step
-- relation; all of its 100 rounds; Semaphores/Many: its producers and consumers that end by the totals, any
-- number of each, which the state counts by the call they stand at; Semaphores/Copying: the pair that
-- copies a file through ten buffers, with Read of UnixIo. Logger: thread_C++/logger/Logger.cpp with any number of threads
-- that log. Shop: the seller and the boss of thread_C++/thread_lock_mutex.cpp; RwShop: those of
-- thread_lock_RW.cpp, under a read-write lock. Once: thread_C++/mutex/06_double_checked_locking.cpp
-- with any number of threads. Atomics: the counters of thread_C++/atomic/02 to 04.
--
-- Condition: the two threads of thread_C++/thread_lock_condition.cpp. Counter and MessageRing: the
-- processes of Posix_shared_memory/mman_test.cpp that share a number and a ring of messages.
--
-- Wrappers: Posix_message_queue/wrap_mqueue.cpp, System_V_message_queue/wrap_msg.cpp,
-- Posix_semaphore/wrap_semphore.cpp, process_signal/wrap_signal.cpp and the wrap files of common_lib.
-- Most test the result of one call and end in err_sys; the theorems are about those that do more.
--
-- Notify: the receivers of Posix_message_queue/mqueue_test.cpp that a signal tells of messages, as step
-- relations of the receiver, the queue with its one registration as mq_notify(3) describes it, and
-- processes that send; the receipts are those of Mq_receive in Wrappers. QueueSetup: mq_create,
-- test_mq_create and test_mq_service of the same file, with strtol(3) from Words/Numbers. FileServer:
-- test_fifo_one_service and test_fifo_multiple_client of pipe_FIFO/fifo_test.cpp over Read and Write;
-- the copy recurs on its turns as in Dialogue, and a pid_t has 32 bits. MsgExchange: the struct msg_data of
-- System_V_message_queue/wrap_msg.h, whose 152 bytes are those of x86-64, and the single exchange of
-- msg_test.cpp there as a step relation; MsgCalls: its service for any number of clients, each with
-- the type that is its process id.
--
-- Memory: where a routine can write behind an array or a struct (Mesg, Msgrcv in Wrappers, Errors), the list is
-- the memory from its start on, what lies behind it included. Where a header leads to a frame that is gone,
-- what the kernel finds there is not modelled; what mmap(2) puts behind a mapping is a parameter.
--
-- In the step relations a call on a lock or a semaphore succeeds, and a step is one such call or one
-- access to a shared variable; the steps of the threads follow each other in any order.
--
-- Not modelled: terminal output; the demonstrations that only call the system or the C++ library
-- (exec, file status, readv and writev, the C++ thread and future samples, main.cpp); and, of the parts with a
-- logic of their own, the receiver of mqueue_test.cpp that a thread of the kernel tells of messages,
-- the service of msg_test.cpp that forks, fifo_service and fifo_client of
-- fifo_test.cpp, the queued signals of realtime_signal.cpp, the blocking record locks of
-- file_lock.cpp, and the demonstration shared_unnamed_01 of
-- semaphore_test.cpp.
pub mod Atomics
pub mod Base
pub mod Broadcast
pub mod Clock
pub mod Condition
pub mod Counter
pub mod Datagrams
pub mod Descriptors
pub mod Dialogue
pub mod Errors
pub mod FileLock
pub mod FileServer
pub mod Files
pub mod Logger
pub mod Mesg
pub mod MessageHeader
pub mod MessageRing
pub mod MsgCalls
pub mod MsgExchange
pub mod Notify
pub mod Once
pub mod Processes
pub mod QueueSetup
pub mod RwShop
pub mod Semaphores
pub mod Shop
pub mod Signals
pub mod System
pub mod Terminal
pub mod ThreadPool
pub mod UnixIo
pub mod Words
pub mod Wrappers
