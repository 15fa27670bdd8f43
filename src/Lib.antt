-- ===== src/Lib.antt =====
-- A model of the USB bulk device driver for the LPC214x and of TNKernel, the real-time kernel that it
-- runs on, with the theorems that make them correct. Paths are from the repository's root.
--
-- The driver (LPC2146_USB/usb_tests) has three layers. tn_usb_hw.c talks to the controller through
-- its registers; tn_usb_req.c answers the control requests of the host from the descriptors of
-- tn_usb_descr.c; tn_usb_ep.c holds the handlers of the endpoints' interrupts. Endpoint 0's
-- handlers call the requests, and those of the bulk endpoints move packets between the controller
-- and blocks of a pool (TNKernel/tn_mem.c), whose addresses travel through a data queue
-- (TNKernel/tn_dqueue.c, with its storage in tn_utils.c).
--
-- Files:
--   Prelude: the library names in use, tests on numbers, lists over the native numbers, queues of
--     numbers (Queues), the bits of a word (Words), and tables of bit operations (Bits).
--   Bus: registers (Regs), programs over a state that may stop short (Monad), reads and writes of
--     registers and the loops that wait on one (Access), and the controllers on which these loops end
--     (Ready). What the controller answers is a list of the values read, each with its register;
--     what the driver writes is recorded. A program is `none` where the answers end or do not fit.
--   Hw: tn_usb_hw.c. Command has tn_usb_lpc_cmd, _write and _read; Endpoint has tn_usb_ep_read,
--     tn_usb_ep0_write, tn_usb_stall_ep, tn_usb_reset_ep and tn_usb_config_ep; Device has the settings
--     of the whole device; Memory is memory by bytes. Engine reads off a record of writes what the
--     controller's protocol engine receives; Answered, Transfer and Settings prove it.
--   Control: tn_usb_req.c and endpoint 0's handlers. State has USB_DEVICE_INFO and tn_usb_st_DATAIN;
--     Scan the walks over the descriptors; Request the requests and tn_usb_EP0_SETUP; Interrupt the
--     handlers of tn_usb_ep.c and tn_usb_int_reset. The others are proofs: Scan/Find, Scan/Configure,
--     Configuration, Enumerate, Descriptor, Packet, Refused, Data.
--   Descriptors: tn_usb_descr.c; Layout has its blocks.
--   Kernel: the kernel, TNKernel. Code has the return codes, Scheduler the operations that the data
--     queues and pools take of the tasks.
--     Links: the queue_* functions of tn_utils.c on a store of links; Ring and Walk relate them to
--       lists. All other files take the kernel's queues as lists.
--     Ready: the ready lists, the ready map and the next task to run of tn_tasks.c; First, Removed,
--       Added and Changed are about its four functions.
--     Task: TCBs, the variables of tn.c, and the functions that the services share; Services and
--       Endings have the services of tn_tasks.c. Scheduled, Consistent, Waits, Released, Popped,
--       Ended, Kept, Woken, Exits and Created prove what these keep; Running is about the running
--       task; Interface makes the tasks a Scheduler.
--     Sem, Event, Ticks: tn_sem.c, tn_event.c, and tick, time slices and start of tn.c, with proofs
--       below them. Steps has the system as a step relation, from tn_start_system on, and Reached
--       the states it reaches.
--     Mutex: the state of tn_mutex.c with set_current_priority and task_wait_complete; Unlock,
--       Services and Endings have its other functions, and the ends of tasks that hold mutexes.
--       Blockers is about the tests, Passed about priorities, and Owned, Locked and Handed about the
--       services.
--     Delete: the services that delete an object; what other tasks do between their switches is a
--       parameter. Ends is about their loop, Objects about two of them.
--     Fifo: the storage of a data queue, with Contents and Laws; Queue: tn_dqueue.c, with Order and
--       Handed; Pool: tn_mem.c; Free is about the free list, Linked and Create about a new pool.
--   Bulk: tn_usb_ep_rx_int and tn_usb_ep_tx_int; Received and Sent are about them.
--   Dma: the DMA project's bulk endpoints, LPC2146_USB_DMA/usb_tests/tn_usb_ep_dma.c; Descriptors is
--     about the rings as they are set up, Ring about the search in one, Request, Received and Sent
--     about the handlers, Loaded about a descriptor that is to send. Dispatch has that project's
--     tn_user.c and tn_usb_hw.c where they differ from those of LPC2146_USB, and Requested is about
--     one interrupt; Addresses has its endpoints' addresses.
--   Dispatch: tn_usb_int_func of tn_user.c, which calls the handlers of endpoint 0 and of Bulk by the
--     bits of the status registers; Reset is about a bus reset.
--   Utils: s_itoa, s_memset and s_memcpy of utils.c; Decimal and Copy are about them.
--   Tests: each theorem with a hypothesis at a concrete input.
--
-- Numbers are natural. An `int` whose sign is looked at is kept as its 32-bit pattern, pointers of
-- the driver wrap at 2 ^ 32; counters of queues and pools, which are never negative, are plain
-- numbers. tn_fmem_create computes its addresses in 32 bits, as the code does; the theorem about it
-- is for memory that, with what it is aligned up to, does not reach 2 ^ 32.
--
-- Fuel: the walks over the descriptors take one round per descriptor, and one more to see the zero
-- byte behind the last. Any fuel above the number of descriptors is enough, as the theorems about
-- the walks prove; for tn_usb_descr.c that is 12. Loops on registers are as long as the controller's
-- answers. s_itoa's loop has fuel 12, the characters of its buffer, of which 10 are enough;
-- s_memcpy's loops have a round for each byte, which is enough for elements of any width.
-- tn_fmem_create counts blocks down on fuel; more than the blocks asked for is enough where no address
-- wraps, and where one does the code may not end.
--
-- queue_contains_entry walks on fuel; more turns than the ring has entries are enough.
--
-- The kernel's services run with interrupts off, so that each is one step, the switch to the next task
-- at its end included; what a blocking call returns is read off the task's TCB when it runs again.
-- tn_tasks.c defines USE_MUTEXES. Its functions with parts under it have two definitions: in Task for a
-- task that neither holds a mutex nor waits for one, and whole in Mutex, over the state with mutexes.
-- Steps takes the first: no file of the repository makes a mutex. In Mutex a result of none is a null
-- pointer followed, or rounds beyond the fuel: that of set_current_priority is enough above the number
-- of tasks, where no tasks wait in a circle, and on a circle the code may not end. What
-- do_unlock_mutex takes for a task where no task is blocked, the list of blocked tasks itself, has a
-- number and a TCB of its own in the state, of any contents. A
-- list shows a queue as long as its links are whole: the three calls and the tick that leave a
-- task's links in two queues, or its old links behind, are steps of the system only where they do
-- not, as Steps says; and the tick only where the running task's priority has no time slice, since it
-- turns a ready list without a new choice of the next task.
--
-- Not modelled: the port layer; the stacks and registers of tasks; the other interrupts of tn_user.c;
-- the DMA project's control requests, whose code is that of LPC2146_USB; the example applications,
-- which are endless loops around the services; and what the processor and its tools need: hardware
-- set-up, start-up code, loaders.
pub mod Prelude
pub mod Bus
pub mod Hw
pub mod Control
pub mod Descriptors
pub mod Kernel
pub mod Bulk
pub mod Dma
pub mod Dispatch
pub mod Utils
pub mod Tests
