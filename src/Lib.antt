-- ===== src/Lib.antt =====
-- DOG-OS, a 64-bit teaching kernel and its programs, as definitions that compute and theorems about
-- them. Sources are C files of the repository; paths below are from its root.
--
-- The parts, how they interact, and the files that model them:
--
-- * ProcessQueue is Kernel/processManagement/processManagerQueue.c, the linked list of processes that do
--   not run. The nodes live in a memory, a function from addresses (0 is NULL) to nodes, so that the
--   links, and what is left in them, are those of the code. ProcessQueue/Chain says that a queue holds
--   given addresses, ProcessQueue/Refine compares the operations with lists.
-- * Process is Kernel/processManagement/processManager.c. The record Kernel holds its static variables,
--   the heap and the ticks of Kernel/interruptions/time.c. `process_manager` is processManager, the
--   switch on a timer interrupt; Process/Scheduler has it and the calls that give the processor up,
--   Process/Create has newProcess and initializeProcessManager. A walk of getProcess along the links and
--   the loop of processManager run on fuel, a field of Platform; the theorems name how much is enough,
--   and `none` is a run that does not end. Platform also has the operations malloc and free of a heap,
--   and the addresses of the functions wrapper and idle, about which nothing is assumed.
-- * Semaphore is Kernel/semaphores/semaphores.c with the lock of Kernel/lib.c. Semaphores are found by id
--   in a list. A lock that is not free makes a call wait for ever, since interrupts are off: `none`. So
--   is a write outside the array of waiting processes. The process manager and the memory manager are
--   the interface Services; `kernel_services` in Services fills it with the model of Process.
-- * MemoryManager is Kernel/memoryManagement/memoryManager.c, the circular list of free blocks. A header is
--   named by its number of units of 16 bytes from the base, and the fields of the headers are functions
--   of it, so that what is left in a block stays. The loops of malloc and free run on fuel; more than the
--   number of other free blocks is enough, since a round of the circle is one step for each.
--   MemoryManager/Circle says that given blocks form the circle, MemoryManager/Allocated what holds of
--   the free blocks and those that are handed out together.
-- * Buddy and BuddyList are the other memory manager, Kernel/memoryManagement/buddy.c and buddyList.c:
--   blocks whose sizes are powers of 2, in one circular list for each size. Nodes are addresses. The loop
--   of free runs on fuel, one round for each level.
-- * KernelPrints is Kernel/libraries/prints.c, the kernel's numbers and its printf, and Memory is memset
--   and memcpy of Kernel/lib.c on a memory of bytes. The 33 and 64 rounds of the loops of log2 and
--   uintToBase are enough for their types.
-- * Commands is Userland/SampleCodeModule/programs/commands.c: the filters, which read their input up to
--   EOF, and the commands on processes and colours. What they do is a list of outputs and calls.
-- * Pipe is Kernel/pipes/pipes.c, rings of 1024 bytes over two semaphores each. A call that would sleep
--   in semWait gives the outcome `sleeps`, with what is left to do.
-- * Keyboard is Kernel/drivers/keyboardDriver.c: the ring of 30 characters, the modifier keys, the
--   handler. Its calls of the screen, of semPost and of the process manager are effects in order.
-- * Libc is Userland/SampleCodeModule/libraries/libc.c: numbers and strings (Numbers), strcmp
--   (Strings), printf (Format), and readText and scanf (Input), where what getChar returns is a list.
--   A string is the list of its characters without the final 0. The 32 rounds of the loop of intToStr
--   are enough for an int; Numerals has numerals apart from the code. A write before the buffer of
--   readText is an outcome of its own, with the index.
-- * KernelCalls is Kernel/libraries/syscalls.c: the clock, the dump of memory, and where reading and
--   writing go. The loop of getMem runs on fuel; more than the number of bytes is enough when it ends.
-- * Video is Kernel/drivers/videoDriver.c: the two halves of the screen with their cursors. Writes to
--   pixels and copies of rows are listed; the glyphs are a parameter. Video/Pixels has putPixel on the
--   bytes of the frame buffer, Video/Screens the set-up and the blinking cursor.
-- * Phylo is Userland/SampleCodeModule/programs/phylo.c, the dining philosophers; a step is a function on
--   the table that lists its system calls with their results. Phylo/Problem is philoProblem, the whole
--   dinner, and Phylo/Kinds what philosophers hold of the system.
-- * Shell is Userland/SampleCodeModule/programs/shell.c: how a line of input becomes arguments and the
--   system calls of a pipe, and in Shell/Execute the rounds of shellExecute. A pointer into the line is
--   what stands from there on; the results of the system calls are arguments.
-- * Syscalls is Kernel/interruptions/syscallDispatcher.c and, on the other side,
--   Userland/SampleCodeModule/libraries/userSyscalls.c: calls in registers, and their conversions.
-- * Modules is Kernel/moduleLoader.c, and Modules/Packer is Toolchain/ModulePacker/main.c, which writes
--   the image that the loader reads. Files are lists of bytes; fread and fwrite are those of the C library.
--   The loop of write_file runs on fuel, two rounds more than a file fills buffers being enough. The
--   loader prints by Console, which is Kernel/naiveConsole.c; its text memory is apart from the modules.
--   Start is the part of Kernel/kernel.c that runs before main.
-- * Interrupts is idtLoader.c, irqDispatcher.c and exceptions.c of Kernel/interruptions. The table is a
--   function from numbers to descriptors; the addresses of the handlers are parameters. Of an exception
--   the calls are listed, in order; what they do, to a pipe for one, is not followed.
-- * Prelude has the Boolean tests, arrays, signed integers and rings that the others share.
--
-- Machine words are natural numbers with their wrap-around written out, where the code's values can
-- reach it; an int result is an integer, -1 being `minus_one`.
--
-- Not modelled: the boot loader and BMFS (copies of other projects), assembly, the fonts, and printing of
-- states and tables, which is output alone. Where the other parts allocate, the memory manager is a
-- parameter, since either of the two can be linked in.
pub mod Buddy
pub mod BuddyList
pub mod Commands
pub mod Console
pub mod Interrupts
pub mod KernelCalls
pub mod KernelPrints
pub mod Keyboard
pub mod Libc
pub mod Memory
pub mod MemoryManager
pub mod Modules
pub mod Phylo
pub mod Pipe
pub mod Platform
pub mod Prelude
pub mod Process
pub mod ProcessQueue
pub mod Semaphore
pub mod Services
pub mod Shell
pub mod Start
pub mod Syscalls
pub mod Video
