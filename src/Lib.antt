-- ===== src/Lib.antt =====
-- A verification library for the Linux system programming examples: programs of one or two C files
-- each, which call the kernel and libc, share memory between threads, or talk to another process.
--
-- How the code is modelled. A `main` that is a chain of calls is a tree of calls (`Sys.Prog`), each
-- call with the continuation that the source has behind it, its tests and early exits included. The
-- tree runs against a kernel, a function that answers a call from its state; a run has a result
-- (`exited n`, `undefined` behaviour, or `out_of_fuel`), the calls in order, and the printed lines.
-- Where a theorem is about every kernel, the kernel is a variable; where it needs the meaning of the
-- calls, a module beside the program gives a kernel with a file, a queue, a memory or a connection.
-- Threads are step relations on a shared memory and the program counters, with reachability over
-- every interleaving. Two processes that run at once are a `Pair` of trees over one kernel whose calls
-- can block; a step is one call or one printed line of either, and a schedule is any sequence of steps.
-- The threads of one process are a `Threads.Team` of trees over one memory, in the same way.
-- A pair of concrete programs is explored whole (`Pair.explore`), which says what every schedule does;
-- where the programs depend on data, a derivation follows them (`Pair.Ends`), or an invariant of the
-- states of both is kept by each step (`Pair.Go`, `Ipc.Fifo.Joint`).
--
-- The parts, with the files they model:
--   Prelude, Sys, Libc        shared helpers, calls and runs, the text functions of libc
--   Outcome, Pair             two processes at once on one kernel
--   AddressBook               malloc_example.c: input_person_information, print_person_information
--                             and main, cut into its steps
--   Files.RecordLock          record_lock_test.c, over Files.RecordLock.Disk
--   Files.Filter              stdio_example2.c, the program only
--   Files.Mmap                mmap_example.c, under every kernel
--   Files.Directory           directory_example.c, over Files.Directory.Listing
--   Files.StreamLock          flock_example.c: the thread, under every stream, and main
--   Files.Access              access_example.c, chmod_example.c, creat_example.c, over Files.Access.Node
--   Files.Record              stdio_example.c, over Files.Record.Stored
--   Files.Position            stdio_example3.c, over Files.Position.Terminal
--   Files.Stat                stat_example.c
--   Threads.Team              the threads of one process on one kernel
--   Threads.SemPrint          SysV/sem_example.c: print_one, its two threads and main; what the joins of
--                             main wait for in Threads.SemPrint.Joined
--   Threads.Bank              pthread_example.c: withdrawal and main as they are written in
--                             Threads.Bank.Program, the step relation that they refine beside it
--   Threads.SemPosix          POSIX/sem_posix_example.c: thread_t1, thread_t2 and main in
--                             Threads.SemPosix.Program, the step relation that they refine beside it
--   Threads.Create            pthread_create_example.c: start_func and main, at once
--   Threads.Cancel            pthread_cancel_example.c: start_func and main, at once over
--                             Threads.Cancel.Timed
--   Process.Status            wait_example.c and parent_child_example.c, under every kernel; parent and
--                             child at once in Process.Status.Both
--   Process.Pipe              pipe_example.c, under every kernel; parent and child at once in
--                             Process.Pipe.Both
--   Process.Signal            signal_example.c, over Process.Signal.Delivery
--   Process.Clock             gmtime_localtime.c, over Process.Clock.Store
--   Process.Command           popen_example.c, over Process.Command.Output
--   Process.Daemon            daemon_example.c, over Process.Daemon.Console
--   Process.Kill              kill_example.c
--   Ipc.SysvMq                SysV/sysv_mq_example.c, over Ipc.SysvMq.Queue
--   Ipc.PosixMq               POSIX/posix_mq_receiver.c and posix_mq_sender.c, over Ipc.PosixMq.Queue
--   Ipc.Shm                   POSIX/posix_shm_write.c and posix_shm_read.c, SysV/shm_write.c and
--                             shm_read.c, over Ipc.Shm.Memory
--   Ipc.Tcp                   socket/tcp_server.c and tcp_client.c; both at once in Ipc.Tcp.Both
--   Ipc.Fifo                  fifo/write_fifo.c and read_fifo.c, at once over Ipc.Fifo.Channel; what stands in
--                             front of the loops in Ipc.Fifo.Start, every schedule of the loops in
--                             Ipc.Fifo.Chat over the joint states of Ipc.Fifo.Joint
--
-- Bounds and fuel. Loops that read until an end (Filter, Directory, StreamLock, Command) take a
-- number of rounds; one more than the entries or lines is enough, which the theorems on Directory,
-- StreamLock and Command state. The loops of the daemon, the FIFO programs and the thread of pthread_cancel_example.c
-- never end in the source; they make as many rounds as they are given, and the third thread of
-- POSIX/sem_posix_example.c as many tries. The other loops count down
-- and are structural. An int that `atoi` or scanf gives is an integer without a bound; byte counts
-- that become a `size_t` wrap at 2 ^ 64 (`Libc.to_size`). Array sizes are those of the source. The
-- bounds of the explorations are more than the longest schedule.
--
-- Undefined behaviour and missing names. stdio_example2.c and the second thread of flock_example.c read
-- from a stream directly behind a write to it, which C leaves undefined: Files.Filter and
-- Files.StreamLock translate the calls, and no kernel gives them a meaning. wait_example.c tests
-- WIFEXISTED, which sys/wait.h does not have; it is a parameter of `Process.Status.report`. A scanf of
-- malloc_example.c that converts nothing leaves its variable as it was; what the variable held at
-- first is a parameter.
--
-- Not modelled: the comments that follow the programs, README.md. Printed Korean texts are
-- translated, and the message of fprintf (stderr) goes without its arguments. What an uninitialised
-- array or struct holds is a parameter, as are the conversions of gmtime and localtime; the bytes
-- of a struct are those of a little-endian machine.
pub mod Prelude
pub mod Sys
pub mod Outcome
pub mod Pair
pub mod Libc
pub mod Files
pub mod AddressBook
pub mod Threads
pub mod Process
pub mod Ipc
