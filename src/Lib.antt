-- ===== src/Lib.antt =====
-- eggos: a unikernel that runs Go programs on a bare i386 machine, without the Go runtime's usual
-- operating system. The library models the parts of the kernel that keep state between calls and
-- follow one another on the way of a key press: the keyboard driver (Kbd) turns scan codes into
-- bytes, the console (Console) collects them in its line buffer and echoes them, and the text
-- output (Cga) parses escape sequences and draws on one of two displays. Beside them stand the
-- thread table with its scheduler (Kernel), the memory manager (Mm) and the PCI registers (Pci). A
-- packet goes through the link endpoint (Inet/Link) into the ring of the network card (E1000),
-- which Pci/Drivers starts; the frame buffer with its views is Vbe, and the shell is Shell. A trap
-- enters at Kernel/Irq; a system call is served by the kernel or handed to the handlers of Go
-- code (Kernel/Forward, Isyscall), of which the calls on files are modelled (Fs).
--
-- Base      shared names and lemmas: Boolean tests, lists indexed by native numbers, results that
--           may panic, 32-bit words, laws of the bit operations.
-- Cga       cga/ansi.go is Cga/Ansi (Parser is the ansi type of the parser, step and reset are its
--           methods), cga/backend.go is Cga/Crt (the CGA text memory and its cursor registers),
--           cga/fbcga/fbcga.go is Cga/Framebuffer, and cga/cga.go is Cga/Driver (write_byte is
--           WriteByte, write_csi is writeCSI). Cga/Backend is the Backend interface: a record of
--           operations and, apart from it, the laws that both displays meet and the driver uses.
-- Console   console/con.go: Line is the console type with its ring buffer, handle_input is
--           handleInput, read is Read, ioctl is Ioctl. Console/Spec is the line discipline with two
--           queues in place of the ring; Console/Refine and Console/Reader relate the two.
-- Kbd       kbd/kbd.go: the key tables (Kbd/Tables), read_code is ReadByte on one scan code, intr
--           is the interrupt handler with its callback, read_codes the bytes that it makes. Kbd/Arrows follows a
--           key through all three components.
-- Kernel    kernel/thread.go and kernel/lock.go: Thread is a slot of the table, pickup, schedule,
--           yield, exit, clone, sleepon and wakeup carry the names of the source. A call of the
--           running thread goes on to the next round of the scheduler, where the source switches
--           stacks; of a context it keeps whether the thread waits inside sleepon, and
--           Kernel/Frames has the rest. Kernel/Steps orders such calls and wakeups as steps of a
--           relation. Kernel/Epoll is kernel/epoll.go: epoll_ctl, epoll_wait and epoll_notify on
--           the list of registered events, without the pool that holds them and the sleep of a
--           wait. Kernel/Irq is kernel/trap.go: dotrap, wake_irq, wait_irq and dispatch, a round
--           of the loop of traploop; a handler is known by whether one is registered. Kernel/Clock
--           is kernel/timer.go and futex of kernel/lock.go: nanosecond, clocktime, timer_intr, and
--           a round of each loop that sleeps; Kernel/Note has the notes. Kernel/Forward is the hand-over of
--           kernel/syscall.go: can_forward and syscall_intr choose the way of a call,
--           forward_call, fetch_pending_call and handle_forward are rounds of the loops of the
--           same names. Kernel/Forward/Handover orders them as steps of a relation. Kernel/Boot is
--           doBootSyscall on the state of all these parts and of Mm: service is its switch,
--           serve_call its cases. Kernel/Signals is kernel/signal.go, and Kernel/Faults the way of a
--           fault through Signal and the handler, a parameter, and back. Kernel/Frames is the frame
--           of a trap: all_traps and trapret of kernel/trap.s, ChangeReturnPC, and clone_stack and
--           thread0_stack, which fill the stacks of new threads. Kernel/Descriptors is setSegDesc,
--           fillgdt and settls of kernel/preinit.go, switchThreadContext and ktls_init of
--           kernel/thread.go and fillidt of kernel/trap.go; Kernel/Args is prepareArgs.
-- Isyscall  kernel/isyscall/syscall.go: the values that a call returns for an error, and the table
--           of handlers.
-- Fs        fs/vfs.go: Fs is the table inodes, get_inode, alloc_inode and fs_call are GetInode,
--           AllocInode and fscall. What the files stand on is a parameter, Devices, with a state
--           of its own. Fs/Names is uname, getrandom and fcntl.
-- Paths     fs/stripprefix/stripprefix.go (Paths/Strip), fs/chdir/chdir.go (Paths/Chdir) and
--           fs/logger/logger.go (Paths/Logger): file systems made of another one, which is a
--           parameter with the methods of afero.Fs. filepath.Join, IsAbs and strings.TrimPrefix
--           are written out on the bytes of a path.
-- Inet      inet/sockfile.go, and inet/socket.go (Inet/Calls): sock_read, sock_accept4 and so on are
--           the methods of sockFile, socket_call is socketcall on the table of Fs. The network
--           stack is a parameter, Network: its endpoints and what their methods answer. Inet/Link
--           is inet/endpoint.go, over the card and a codec of Ethernet headers. Inet/Start is
--           inet/stack.go with what its calls of the stack and of the DHCP client answer.
-- E1000     e1000/e1000.go: the rings of descriptors, readpkt, Intr (intr, with read_all as its
--           loop) and Transmit. What the card writes into the ring during the loop is an argument,
--           Traffic, with finitely many steps: the loop has 33 rounds more than those, one more
--           than the ring has descriptors, which is enough since a round clears one. While the card
--           goes on to fill descriptors without an end, the loop of the source has none.
--           E1000/Mac is readmac, E1000/Start is Init.
-- Pic       pic/pic.go: enable_irq, disable_irq and eoi on the masks of the two controllers.
-- Uart      uart/uart.go: uart_intr is intr, with drain as its loop; Uart/Output is WriteByte, Write
--           and WriteString over the reads of the line status.
-- Startup   the handlers and lines that preinit of kernel/preinit.go and main of kmain/main.go set up.
-- Vbe       vbe/fb.go and vbe/view.go: bufcopy, commit_rect and commit on arrays of bytes, and Init
--           with NewView (Vbe/Start).
-- Shell     app/sh/autocomplete.go: autocomplete and complete_file (completeFile); Shell/Run is
--           app/sh/sh.go, with a list of the lines typed.
-- Mm        mm/mm.go: sbrk, alloc, free, free_range, walk (walkpgdir with its allocation),
--           find_entry (without it), mmap, fixmap and munmap over a memory of words. Mm/Boot is
--           Init with findMemTop, and Mm/Pool is mm/pool.go.
-- Pci       pci/addr.go: register addresses, register access and ReadBAR, over hardware that is a
--           parameter, latch: what a register reads as behind a write. Pci/Scan is Scan and
--           findDev of pci/pci.go, Pci/Drivers its Init over the drivers, which are a
--           parameter and may panic.
--
-- A Go int, uint or uintptr is its bit pattern below 2 ^ 32, and additions that the source does
-- not bound wrap there; a byte is a number below 256. An index out of range, a call of panic and
-- a failed check are the result `panic`. Loops recurse on what is left of them: the bytes of a
-- slice, the rest of a line, the slots of the thread table or the pages up to the last one, so none
-- of these can run out of fuel. The number of rounds of mmap, fixmap and munmap is the distance of
-- the last page from the first, which the loop reaches since both are page boundaries.
--
-- The mutexes and the disabling of interrupts are not modelled: a call of the console and a call
-- into the scheduler is one step. Port input and output is the list of the values read or written.
-- strconv.Atoi and bytes.Split stand for the Go functions as the parser uses them, on bytes between
-- '0' and '?'. The memory of a caller is not modelled: a file call carries the bytes that its
-- arguments point to, and its reply what is stored. The pixels of the glyphs that the frame buffer
-- draws (that drawing may panic is a parameter of Cga/Framebuffer), and the thread times are left
-- out, and so are the built-in and remote files, the words that set up the serial port and the
-- timer, and the other programs under app. fs/mount/mountfs.go and inet/dhcp are copies of other
-- projects' code, kernel/vectors.go is generated.
pub mod Startup
pub mod Vbe
pub mod Uart
pub mod Shell
pub mod Paths
pub mod Inet
pub mod Pic
pub mod E1000
pub mod Base
pub mod Cga
pub mod Console
pub mod Kbd
pub mod Kernel
pub mod Mm
pub mod Pci
pub mod Isyscall
pub mod Fs
