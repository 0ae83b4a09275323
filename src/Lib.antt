-- ===== src/Lib.antt =====
-- esma: an engine that runs finite state machines as reactions to messages, timers, signals and
-- file descriptors, and the core library it stands on.
--
-- The parts. A template (engine/esma_template.c parses it) is turned into a machine by esma_load
-- (engine/esma_load.c), which looks the handlers up by name. Messages wait in a ring buffer
-- (core/esma_ring_buffer.c). The dispatcher (engine/esma_engine_dispatcher.c) takes one message at
-- a time: it finds the transition in the current state of the receiver and either calls the
-- transition's function or leaves the state, stops its timers and signals, enters the next state
-- and starts those of the new one.
--
-- Base holds the names and lemmas that all files share: tests and lists over the native numbers,
-- the bits of machine words (Base/Bits) and blocks of bytes (Base/Bytes). A u32 is a number whose
-- wrap-around is written out (u32, sub32).
--
-- Ring models core/esma_ring_buffer.c, a function of the model for one of the source: init is
-- _init, get, put and expand are _get, _put and _expand, and a function that updates the ring
-- returns the new ring. A pointer to an item is its offset from data, and what realloc did is an
-- argument of put. Ring/Valid has the representation invariant, Ring/Fifo the queue that a ring
-- stands for, Ring/Expand and Ring/Wrapped the growth, Ring/History sequences of calls, and
-- Ring/Lock the spin lock of _get_cmpxchg and _put_cmpxchg as a step relation of threads;
-- Ring/Create has esma_ring_buffer_init and esma_ring_buffer_new. The mutex variants of get and
-- put call pthread and are not modelled.
--
-- Engine/Types has the structures of engine/esma_types.h; a pointer to a state is its index in the
-- machine's array. Engine/Load models engine/esma_load.c, with dlsym, calloc and realloc as
-- parameters; Load/Own and Load/Correct are its proofs. Engine/World has what surrounds the
-- dispatcher: all calls that leave the engine are recorded, in order, and answered by a parameter
-- that may depend on the calls before. Engine/Dispatch models esma_engine_dispatcher_send and its
-- helpers; Dispatch/Keeps and Dispatch/Invariant show what a dispatch leaves alone, Dispatch/Trace
-- and Dispatch/Outcomes which calls it makes. A handler does not assign the state of a machine.
--
-- Guards against a NULL argument of a structure type have no counterpart, since records are never
-- NULL. Logging is left out. Fuel is used for decimal (Engine/Load), where n + 1 rounds suffice
-- since each divides by ten, for the parser and for the loop of the engine.
--
-- Array models core/esma_array.c for items of one type, by their index (Array/Items: the list of
-- the counted items), and Objpool core/esma_objpool.c (Objpool/Stack: the stack of its pointers).
-- The engine's arrays of transitions have their own type in Engine/Types, whose cells are a list,
-- since the loader fills cells that are not counted. Crc models core/esma_crc.c: its six loops
-- differ only in the width, which is an argument here, and the cases of a switch are a list in the
-- order of their codes; Crc/Detect shows what the reflected ones tell apart.
--
-- Engine/Parser models engine/esma_template.c. A text is the list of its characters, and a pointer
-- into it is the rest of the text from there on; the NUL is not in the list. Parser/Text has the
-- macros and scans (also those of common/parser_helper.h), Parser/Terms what the parser adds to a
-- template, Parser/Modes and Parser/Options one function for each case of the switch in
-- _decode_buffer (Parser/Words the words for periods, signals and events), Parser/Decode its loop,
-- and Parser/Source the functions that call it. sscanf, the numbers of signals and memory are
-- fields of a record (Surroundings). A step is accepted, refused, or reads or writes where it must
-- not; the pointer s is kept only where a later case reads it. The loop has fuel (n + 6) * (n + 6)
-- for n characters: Parser/Moves has the measure and Parser/Cases, Parser/Channels, Parser/Ends
-- and Parser/Rounds show that each round brings it down. Parser/Built has what the parser keeps of
-- the template, Parser/Runs runs without fuel, and Parser/Printed to Parser/Roundtrip the reading
-- of printed text. A pointer to a state of the template is its index, so a move of the array of
-- states does not show. Where char matters it is signed.
--
-- Engine/Reactor models engine/modules/esma_reactor_poll.c: two arrays side by side, and the index
-- that each channel holds. Reactor/Tracks has the set of channels that a reactor stands for and
-- add, Reactor/Forgets del and mod, Reactor/Ready wait.
--
-- Engine/Epoll models engine/modules/esma_reactor_epoll.c: the kernel's set of descriptors is a
-- state that is given, with the calls of epoll_ctl on it. Epoll/Same has what epoll_ctl is
-- documented to do, and when the two reactors watch the same channels; Epoll/Steps has one call of
-- both, Epoll/Runs rows of calls, Epoll/Places the places of the poll reactor in which something
-- happened, and Epoll/Waits the messages; it has the maximum of 32 events of a wait. Fd models
-- core/esma_fd.c, which it calls.
--
-- Mempool models core/esma_mempool.c: a block is its address, and a function gives the link that
-- the memory holds there. Mempool/Chains has the free blocks as lists, Mempool/Free get and put of
-- one block, Mempool/Several those of several.
--
-- Engine/Program takes the parser and the loader together: Program/Gains shows that what is read
-- from arrows can be loaded, Program/Last which transition it becomes, Program/Loaded the machine.
-- Engine/Load/Total and Engine/Load/Succeeds show when the loader succeeds.
--
-- Engine/Machines models engine/esma_machine.c: Machines the registration of channels,
-- Machines/Life how a machine is made, run, restarted and deleted, over the memory pool and the
-- loader, and Machines/Channels its I/O channel and the lookup of channels. Machines/Register
-- shows what the reactor is told, Machines/Made what esma_machine_new makes and what it loses.
-- Load/Bound, Load/Closed and Machines/Closed follow the targets of the transitions through the
-- loader and the registration, and Machines/Running has the machine that esma_machine_run starts
-- as the dispatcher takes it.
--
-- Engine/Setup models esma_engine_init of engine/esma_engine.c over the interfaces that get_api
-- finds, and the init of engine/modules/esma_msg_queue_ring_buffer.c; Setup/Ready has the engine
-- that it leaves.
--
-- Engine/Exec models esma_engine_exec of engine/esma_engine.c. Its queue is the list of the
-- messages put so far, as a function of the calls that were made; its fuel is enough as soon as it
-- is above the number of messages. Ring/History shows that a ring is such a queue.
--
-- Dbuf models core/esma_dbuf.c, a buffer by its bytes and the offset of pos, and Echo the handlers
-- of programs/esma_echo_server/slave.c on it: a handler returns the buffer and what it does to the
-- outside, in order, or works on memory that is not its own. What read and write answer is an
-- argument. Echo/Recv shows what a read comes to, Echo/Send what a row of writes sends, Echo/Round
-- a line from end to end. Echo/Master models the pool of slaves of
-- programs/esma_echo_server/master.c: Master/Popped has one get or put, Master/Hall the steps of
-- master and slaves, Master/Serves the server from the start, for any number of slaves (the code
-- makes 256).
--
-- Serial models core/esma_serial_port.c: a word of flags is a function from its bits, the masks of
-- termios.h and cfsetispeed and cfsetospeed are arguments. A setter returns the settings that it
-- asks tcsetattr for; which of them the terminal takes is not modelled, since tcsetattr is
-- documented to succeed if any of them could be made. Serial/Settings has the flags of each
-- setting, Serial/Setters what the setters do.
--
-- Limits. The lock of the ring is freed by a plain store, and its asm statement has no memory
-- clobber, so a compiler may move that store before those under the lock: Ring/Lock has both
-- orders, and its theorems are for the order that is written. Arrays are taken to be smaller than
-- 4 GiB, since the u32 products of item_size are left out but where their wrap-around shows (the
-- page of the memory pool has it). A name of 64 characters or more is written behind the machine's
-- name (sprintf): the model crashes there. A pointer to a state is an index, which stays valid
-- where realloc moves the array and a pointer does not.
--
-- Not modelled: esma_template_print and esma_template_free, the echo server's main.c and the
-- sockets and timers of its master.c, and what only calls the system (sockets, timers, the
-- logger).
pub mod Base
pub mod Array
pub mod Crc
pub mod Dbuf
pub mod Echo
pub mod Engine
pub mod Fd
pub mod Mempool
pub mod Objpool
pub mod Ring
pub mod Serial
pub mod Tests
