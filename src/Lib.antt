-- ===== src/Lib.antt =====
-- Kaya OS: the nucleus of phases 1 and 2 and the support level of phase 3, over explicit memory.
--
-- Parts and files:
--   * phase1/pcb.c: process control blocks. Pcb holds the functions, one for each C function (loops
--     and long branches are functions of their own). Pcb/Links, Queue, Remove and Out treat the
--     process queues, Pcb/FreeList the free list, Pcb/Children, Adopt, Orphan, Detach and OutChild
--     the child lists.
--   * phase1/asl.c: semaphore descriptors. Asl holds the functions, on a state that contains that of
--     pcb.c; they call pcb.c through `on_pcbs`. Asl/Chain says which lists of semaphores and
--     processes a state stands for, Asl/Search treats searchASL, Asl/Head the paths that only read,
--     Asl/Refill, Splice, Drop and Grow the changes of the active list, Asl/Insert and Asl/New
--     insertBlocked for an old and a new semaphore, Asl/Leave removeBlocked and outBlocked, Asl/Init
--     initASL. Asl/Queues reads the list as a map from addresses to queues, and Asl/Blocking, Waking
--     and First take insertBlocked, removeBlocked, outBlocked and headBlocked to that map; Asl/Apart
--     and Frame say what it excludes and what leaves it alone.
--   * phase3/adl.c and phase3/avsl.c: the delay list (Adl) and the list of user processes on virtual
--     semaphores (Avsl). Adl/Delays follows the delay list from initADL on, Adl/Trip one process
--     through it. Avsl/Ring says which ring and which free nodes a state of avsl.c stands for,
--     Avsl/Init, Avsl/Link and Enter, Avsl/Leave and Avsl/Search treat initAVSL, vInsertBlocked, a
--     node that leaves, and vRemoveBlocked.
--   * phase2: Kernel holds the nucleus' globals and the hardware it reaches; Kernel/Scheduler is
--     scheduler.c, Kernel/Syscalls and Kernel/Exceptions are exceptions.c, Kernel/Interrupts is
--     interrupts.c, Kernel/Initial is initial.c. Kernel/Dispatch and Kernel/Idle treat the
--     scheduler, Kernel/Copy copyState, Kernel/Devices getDeviceNumber,
--     Kernel/Registers what becomes of the device registers. Kernel/Nucleus says which
--     jobs a state stands for: counts and queues of the semaphores, ready processes, running
--     process. Against them Kernel/Wake, Signal and DeviceSignal treat the V operations, Kernel/Saved
--     and Block the P operations, Kernel/Preempt and DeviceInterrupt the interrupts of devices,
--     Kernel/Clock and Tick that of the interval timer, Kernel/Calls the calls 3 and 4 from
--     sysCallHandler on, Kernel/PassUp what is passed up, Kernel/Birth and CallCreate
--     the new process of call 1, Kernel/Death the end of a process without children by call 2, and
--     Kernel/Boot `main`.
--   * phase3/vmIOsupport.c and phase3/initProc.c: Support holds the globals, the world behind
--     SYSCALL and the primitives; Support/Pager is the pager and meIRL, Support/Devices the
--     printers, terminals and disks, Support/Calls vmSysHandler, Support/Start `test` and uProcInit,
--     Support/Daemon a round of delayDaemon of phase3/adl.c. Support/Pool, Evict, Serve, Paging,
--     Faults, Ending, Disks and Setup treat the swap pool and the page tables, Support/Orders what
--     the pager has the disk do, Support/Frames the
--     turn of the frames and the entries of a new table, Support/Trace says what a trace shows,
--     Support/Output, Printing and Reading treat the device calls, Support/Copy copy,
--     Support/Virtual the virtual semaphores, Support/Sleep DELAY and the delay daemon.
--   * Base: tests, lists, runs linked both ways (Base/Joined), 32-bit words, and the monad of
--     commands.
--
-- Correspondence. A C function is a command `Cmd S A` on the state S of its file: it returns, leaves
-- for good (HALT, PANIC, WAIT, LDST), faults, or uses up its fuel. The entry i of a static table
-- has the address i + 1; NULL is 0xFFFFFFFF as in h/const.h; an access through anything that is no
-- entry is a fault. A function that updates `*tp` returns the new tail. Names are those of the
-- source in snake case (insertProcQ is insert_proc_q); the functions of phase2/exceptions.c that
-- carry joke names are named for what they do (sysSendToNorthKorea is sys_terminate, sysBYOL is
-- sys_byol, sysGoPowerRangers is sys_wait_io, executeOrderSixtySix is execute_order_66). 32-bit
-- values are natural numbers, and their arithmetic is taken modulo 2^32.
--
-- The support level runs above the nucleus, and the system calls it makes are events in a trace.
-- What they return, and what other processes and the devices do to the memory meanwhile, is the
-- parameter World; a theorem says what it relies on, that no other process works on the pool
-- (IsAlone) or writes the memory of this one (IsPrivate), or that a device answers without error.
-- MAXUSERPROC is 1, so that there is one user process. The addresses that the linker places are
-- parameters too (Code and Addresses). uProc_backStoreAdd is left out, since nothing uses it, and
-- so are the calls of the debug functions.
--
-- Fuel. The search of outProcQ has MAXPROC + 1 rounds: the blocks of a queue are distinct entries
-- of a table of MAXPROC, by the pigeonhole principle in Base/Distinct. The search of asl.c has
-- one round more than its table has nodes, and so has that of adl.c; that of avsl.c has two more.
-- executeOrderSixtySix has two units for each process of the table, and two more. The loop over
-- the processes blocked on the clock has MAXPROC + 1 rounds.
--
-- readTerminal, the loop of uProcInit over the tape and the loop of delayDaemon over the delay list
-- have the fuel that the caller gives, since the device, or the list, decides when they end.
--
-- Not modelled: the endless loop of delayDaemon but for one round of it, the test programs of the
-- phases and the user programs under phase3/testers, and the functions of libumps (SYSCALL, LDST,
-- STST, TLBCLR and the like), of which LDST, HALT, PANIC and WAIT are outcomes of a command and the
-- others events in a trace or parameters.
pub mod Base
pub mod Pcb
pub mod Support
pub mod Asl
pub mod Adl
pub mod Avsl
pub mod Kernel
