-- ===== src/Lib.antt =====
-- The hypervisor prpl-hypervisor: verification of its kernel, in C.
--
-- The hypervisor runs guests (VMs, each with one virtual processor, a VCPU) on a MIPS processor with
-- hardware virtualization. A timer interrupt calls the scheduler, which chooses a VCPU from a circular
-- queue and switches the context to it. A guest calls the hypervisor by hypercalls, which drivers
-- register in a table: among them are messages between VMs, and access to device words.
--
-- Files and the code they model:
--   Queue        sys/lib/queue.c (create, destroy, count, addtail, remhead, remtail, get, update for
--                queue_set, swap). Queue/Fifo is the abstract sequence, Queue/Valid the validity of
--                the indices, Queue/Refine the refinement, Queue/Remtail what queue_remtail does.
--   Machine      the structures of arch/mips/common/include/vcpu.h, arch/mips/common/include/tlb.h
--                and sys/kernel/include/vm.h, the state of the scheduler, and the processor: its CP0
--                registers, its shadow sets of general registers, its TLB, memory and devices.
--   Context      arch/mips/common/vcpu.c (contextSave, contextRestore) with the accessors of
--                arch/mips/common/hal.c that it calls.
--   Tlb          arch/mips/common/tlb.c (tlbEntryWrite, tlbCreateEntry).
--   Hypercall    sys/kernel/hypercall.c (register_hypercall, hypercall_execution).
--   Scheduler    sys/kernel/scheduler.c. round_robin is round_robin_scheduler, in two loops
--                (search_highest, lower_all) of queue rotations (requeue). Rotate, Choose, Loops,
--                Lowered and Pending relate the loops to the list that the queue holds; Select puts
--                them together, Ready has the invariant, Returns, Aging, Lookup and FastInt what the
--                functions promise. Run has run_scheduler, and Run/Switch its theorem.
--   InterVm      drivers/inter-vm-comm.c: get_vm_id, guest_is_up, intervm_send_msg,
--                intervm_recv_msg and intervm_init. Inbox is the buffer as a sequence, Written is
--                about copies from and to a guest's memory, Send and Receive about the two hypercalls,
--                Init about the registration.
--   VirtualIo    drivers/virtual-io.c: read_address, write_address, virtual_io_init.
--   Creation     sys/kernel/vm.c: initializeMachines, create_vm, create_vcpu; Creation/Ready is about
--                the ready list at start-up, Creation/Entries about the lines of the TLB.
--   Exception    sys/kernel/exception.c: guest_exit_exception, general_exception_handler.
--   Interrupts   arch/mips/pic32mz/interrupts.c: register_interrupt.
--   Timer        arch/mips/pic32mz/timer.c: the handler of the timer interrupt.
--   Redirect     drivers/pic32mz-interrupt-redirect.c: interrupt_injection (inject is a round of its
--                loop), reenable_interrupt, interrupt_redirect_init. Inject and Reenable are about the
--                handler and the hypercall, Setup about the initialisation.
--   Uart         arch/mips/pic32mz/uart_driver.c: send, scheduler_transfer_interrupt, transfer_tx_done
--                (end_transfer and begin_next are its end) and uart_driver_init. Loops has the validity
--                of the table and the characters that are left, Table what changes of one place do,
--                Served and Ended one call of the handler, Progress the handler on a valid table, Drain
--                its calls until nothing is queued, Sends and Send the hypercall.
--   Libc         sys/lib/libc.c: memset, memcpy, strlen, strcpy, strcmp, hash, puts, itoa. Copy is about
--                the memory functions, Strings about the string functions, Digits, Reverse and Itoa
--                about itoa; Print has prints and printi, Printed what they print, Format has print,
--                printf and sprintf, Formatted what formats print. Loops up to a zero byte stop without a
--                result when their fuel is used up: a string needs one more than its length, print the
--                length of its format, and itoa 35, since an int has at most 32 digits.
--   Emulation    arch/mips/baikal-t1/instruction_emulation.c and gpr_context.c beside it. Effect is about
--                the instructions that are emulated, Saved about the registers of the guest in memory.
--   Processor    the rest of arch/mips/common/hal.c: LowLevelProcInit and what it calls, and the accessors
--                that the scheduler does not need. Setup is about the start of the processor and the timer.
--   LinkedList   sys/lib/linkedlist.c: list_append, list_remove_all, list_count; Chain relates the nodes to
--                the sequence of their addresses. Fuel for one round more than the list has nodes is enough.
--   Malloc       sys/lib/malloc.c. Gap has the order of the addresses around the ring, Ring and Blocks the
--                validity of the free list, Insert, Take, Join, Above and Below what the steps of malloc
--                and free do to it, Search and Place their loops. Grant is about malloc, Release about
--                free, RoundTrip about both, Init about HeapInit, Client about sequences of calls, Limits
--                about a ring of one block, Contents about calloc and realloc. As fuel, malloc needs as
--                many rounds as there are free blocks; for free 2^32 is enough, since the address of the
--                block is nearer with each step.
--   Ethernet     drivers/pic32mz-ethernet-shared.c, the part that reads the descriptors: en_ll_input, in the
--                two loops copy_pages and give_back. Pages and Return are about the loops, Input about
--                both. As fuel, as many rounds as the frame has descriptors are enough; the controller
--                does not change descriptors during a call.
--   Sharing      the same file, the part that shares frames out: receive_frame and what it calls, and
--                en_get_mac. Rings has a VM's ring as a sequence, Counts how many places hold a buffer,
--                Kept and Rounds what each step keeps, Reading what becomes of a frame that is read, Oldest
--                what receive_frame does with one that waits. Output models send_frame and en_ll_output;
--                its fuel must last until the controller is ready.
--   Counters     drivers/performance-counter.c: the hypercalls that start and stop the counters.
--   Base         numbers, words, lists and membership, shared by all.
--
-- Conventions. A `uint32_t` or `int32_t` is a number below 2^32, with the wrap-around written out
-- (add32, sub32; le_int and rem_int for signed tests). Objects are found by their address in functions
-- (`vcpu`, `vm`), so that aliases see each other's writes; NULL is 0. CRITICAL, which stops the machine
-- until a reset, is a missing result; so are a device word at an address that is not aligned, which
-- makes the processor trap, and a digit that printi would put in front of its buffer. Loops over a count recurse on the rounds that are left, as many
-- as the code's own counter makes, so that no loop over a count runs out of fuel. The processor is that
-- of the PIC32MZ, but in Emulation; the tick count per choice, the number of VMs, the address of cpu_idle,
-- the readings of the counter, the addresses of allocated blocks, the translation of addresses by the
-- hardware, the effect of a store to a device and the room in the queue of the UART are arguments.
--
-- Not modelled: the Baikal-T1 variants but for the emulation of instructions (Emulation) and the vector
-- of interrupt handlers (Interrupts/Baikal), the programming of the Ethernet controller, the drivers for
-- USB, flash and tests, the set-up of the timer and of the interrupt controller, start-up code in
-- assembly, log messages, and the guest applications.
pub mod Base
pub mod Queue
pub mod Ethernet
pub mod Sharing
pub mod Counters
pub mod Malloc
pub mod Machine
pub mod Context
pub mod Tlb
pub mod Hypercall
pub mod Scheduler
pub mod InterVm
pub mod VirtualIo
pub mod Creation
pub mod Exception
pub mod Interrupts
pub mod Timer
pub mod Redirect
pub mod Libc
pub mod Uart
pub mod Emulation
pub mod Processor
pub mod LinkedList
