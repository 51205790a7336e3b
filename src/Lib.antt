-- ===== src/Lib.antt =====
-- MinervaOS, a 32-bit x86 operating system: the parts of the kernel that manage memory, processes and
-- tasks, the FAT32 driver's table and names, and the cryptography behind the TLS client.
--
-- The program's parts and how they meet. kernel.c starts the machine: it gives the page bitmap the end
-- of the kernel, turns on paging, starts the heap, the process table and the scheduler, creates kernel
-- tasks, and registers itself as the main task. The timer interrupt (interrupts/interrupts.c) drives the
-- scheduler, which answers the stack pointer to resume; tasks give way by scheduler_yield. The launcher
-- in kernel/user_scheduler.c is such a task: it takes the first ready process of the process table and
-- runs it in user mode with preemption off. fs/fat32.c reads and writes sectors through drivers/ata.c.
-- drivers/net.c verifies certificates and agrees on keys with drivers/p256.c and drivers/sha256.c.
--
-- Which file models which part:
--   Memory/Pmm      memory/pmm.c, the bitmap and the counter: pmm_init, pmm_alloc_page, pmm_free_page.
--   Memory/Heap     memory/allocator.c. The list of headers inside heap_memory is the list of blocks in
--                   address order, with their offsets; kfree of a pointer that is no block's has no
--                   result (none). Memory/Heap/Run follows sequences of calls.
--   Kernel/Names    libc/string.c: strcmp, by which processes are found.
--   Kernel/Process  kernel/process.c, the slots, pids and user contexts.
--   Kernel/Scheduler
--                   kernel/scheduler.c and the words that kernel/switch.asm stores. Tasks creates and
--                   registers tasks, Timer is the interrupt's side, Switch the cooperative side; Laws
--                   has the step relation of all of them and what it keeps, in which
--                   scheduler_poll is one step: interrupts inside it are left out.
--   Kernel/UserScheduler
--                   kernel/user_scheduler.c, and the contexts that kernel/usermode.c fills.
--   Fs/Names        fs/fat32.c: short names. Fs/Bytes: numbers in a sector. Fs/Fat: the volume, the
--                   table's entries, the search for a free cluster and the release of a chain.
--   Sha256          drivers/sha256.c from the rounds to sha256_hash; Reference is the standard's view.
--   P256            drivers/p256.c: Product and Reduce under Field and Scalar, Bytes, Point for affine
--                   points, Jacobian for projective ones; Numbers has the rules of chord and tangent and
--                   the Jacobian formulas on numbers modulo p, which the points are compared with.
--   Net             drivers/net.c. Aes and Gcm: AES-128-GCM. Hmac: net_hmac_sha256 and
--                   net_tls_prf_sha256, with the standards' texts in Reference. Ecdsa: the check of a
--                   signature. Checksum: IPv4, UDP and TCP. Info, Arp and Dns: what the handlers of
--                   answers do to g_net. Der, Hostname and Extensions: lengths, dates, names and
--                   extensions of certificates. KeyExchange: the server's message with its
--                   signature, and the signature of a certificate.
--   Drivers         drivers/keyboard.c, the ring of keys, and drivers/mouse.c, the packets; the
--                   bytes that the ports give are arguments.
--   Base            what they share: Boolean tests, lists as arrays, sums, bits.
--
-- How code becomes definitions. A definition has the name of the C function. State that C keeps in static
-- variables is a record, passed and returned; a pointer that may be NULL, an index that may be -1 and a
-- result that may fail are an Option, or a pair with a Bool. Numbers are natural numbers with the wrap of
-- their width written out. Arrays are lists: a read out of range gives a default and a write changes
-- nothing. Strings are their bytes without the NUL.
--
-- Loops and bounds. Each loop recurses on the rounds that its C bound leaves or on the list that it walks,
-- so none can run out: pages and slots up to the end of their tables, limbs and bits by their number.
-- Three need an argument. next_loop of the scheduler has one round per task, as C has, and comes back to
-- where it began. chain_loop of fs/fat32.c recurses on max_cluster less the clusters visited, which the C
-- code tests itself. p256_scalar_from_be32 subtracts while the number is not below n: two rounds are
-- enough for a 256-bit number, since n is above 2^255.
--
-- In Net the loops of AES-GCM, the checksums and host names count in 16 bits: the models stand for
-- lengths below the wrap, which are 65520, 65534 and 65535 bytes. Handlers that read a packet or a
-- certificate (Dns, Extensions, KeyExchange, and the lengths of Der) answer none for a read outside their bytes and for a loop that runs out
-- of its rounds, one more than there are bytes, and are shown never to do so.
--
-- What is a parameter. The addresses that the linker gives (Layout of the scheduler, Machine of the
-- launcher), the run of a user program (Machine.usermode_run_context, which answers what the system call
-- getters hold afterwards), the sectors of a disk and which of them it answers for (Drive), and what an
-- uninitialised buffer holds (the first argument of sha256_hash).
--
-- What is not modelled. Registers of the processor other than the saved stack pointers; the protocols of
-- ports and devices; drawing and the window system; text of listings. memory/paging.c, the directory and
-- the files of fs/fat32.c, and in drivers/net.c TCP, HTTP, the handshake of TLS and the bodies of
-- certificates have no model here.
pub mod Base
pub mod P256
pub mod Memory
pub mod Kernel
pub mod Sha256
pub mod Fs
pub mod Net
pub mod Drivers
