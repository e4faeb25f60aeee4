-- ===== src/Lib.antt =====
-- forwardr: calls that may run on another thread or another server, and what carries their results.
--
-- The repository is a workspace of small crates. `forward` hands a call to the handle that its
-- configuration selects; the handle returns the value, or the receiving end of a channel on which
-- the value will come. `conlock` has that channel: it carries one message, and both of its ends, on
-- different threads, work on one box through an atomic status word. `const_string` has strings of a
-- fixed length that lie in the value itself where they are short.
--
-- Files, and the code that each is about (paths from the repository's root):
--   Base             lists, Boolean tests, maps, integers and little-endian bytes, shared by all
--   Conlock.Bit      conlock/src/bit.rs: `Bit`, `BitWith for u32`
--   Conlock.Status   conlock/src/oneshot.rs: `BitStatus`, the queries of `Status`, the macro `cas!`
--                    and each method made with it, under the names of the source
--   Conlock.Oneshot  the rest of conlock/src/oneshot.rs. Inner: the record `Inner` and its unsafe
--                    reads and writes. Sender: `send`, `try_wake_after_ready`, `drop_sender`. Recv:
--                    `recv`. Receiver: `poll_recv`, `drop_receiver`. System: `channel`, `Sender` and
--                    `Receiver` with any number of threads, in any order of steps. Table: the
--                    table of transfers of conlock/README.md. Atomic: the cell that the channel is
--                    to its users. Invariant, Safety, Along, Ledger, Trace, Refinement, Alone (one
--                    thread's turns), Handover (after the sender has left) and Wakeup (stored
--                    wakers): proofs. Orderings: the memory ordering of each access, and the proof
--                    that they leave no race. Runs: concrete histories.
--   ConstString      const_string/src/lib.rs and, in Impls, const_string/src/impls.rs. Heap:
--                    the allocator. Layout: `ConstString::new`, `len`, `as_str`, `Drop`, on the 16
--                    bytes of the union. Tag, Contents, Lifetime, Writes and Order: proofs. Runs: examples.
--   Forward          forward/src/lib.rs, the synchronous half, in Calls; the implementations of
--                    `Forward` in forward/src/lib.rs and examples/test.rs in Hops; the async half, and
--                    its implementations, in Async; `ForwardProxy`, `Selector` and the rest of
--                    examples/test.rs in Proxy. Transparency and Polls: proofs. Runs: examples.
--   Macro            forward_macro/src. Syntax: what is used of the crate syn. Config: PathSelector of
--                    config/mod.rs and the parser of config/macros.rs. Attrs: the two configurations
--                    of config/mod.rs, and parser.rs. Proxy: `parse` of lib.rs. Expansion: what a body that
--                    is made does, by the calls of Forward. Example: examples/test.rs against it.
--                    Export: `forward_proxy` and `export_to_file`. Leftover, Total, Named and Shape:
--                    proofs. Runs: examples.
--   Rpc              examples/rpc. Lock: lock/spin.rs and its proof. Message: `MessageType`,
--                    `Message` and `get_mid` of message.rs. Wire: `send_mesage` and `recv_message` of
--                    net/async_impl.rs and their proof. Session: `IoSession` of net/async_impl.rs with
--                    `RpcClient::send` of net.rs; Session.Account and Session.Replies: proofs. Server:
--                    `RpcServer` of net.rs, and its composition with a session. Worker: the loop of a
--                    `Worker` of worker.rs and its proof. SyncWire and SyncSession:
--                    net/sync_impl.rs. Managers: `RpcManager` of net.rs and `WorkerManager` of
--                    worker.rs. Runs: examples.
--   Rpc.Practice     examples/rpc/practice.rs. Executor: `LocalExecutor`. Runtime: `ForwardRuntime` with
--                    its two cursors, and `Registry`. Players: `PlayerProfile`, `PlayerOpsImpl`.
--                    Proxy: `bootstrap` and `PlayerProxy`. Cursor, Delivery, Failure, Scores and
--                    Service: proofs. Runs: examples.
--
-- How the channel is modelled. All features (sync, wait, async) are on. A function of the source is
-- a program counter type with one constructor for each access to the shared box, which carries the
-- locals that are live there (`current` is the thread's copy of the status word); the code between
-- two accesses is a function of the copy (`drop_sender_head`, `recv_head`, ...). A history is a list
-- of actions, of any length: it decides which thread moves, which calls begin, when a weak exchange
-- fails without a reason and when a sleeper wakes for none. A call begins where Rust's borrow rules
-- allow it: `send` and the sender's drop once, `recv` on any number of threads, `poll` and the
-- receiver's drop while no other call is in flight. `send` consumes the sender, so it goes on into
-- its drop. What would be undefined behaviour, or a leak, is a `fault` in place of a state. The field
-- `log` records what became of the message and of wakers; the program has no such field. Whether one
-- waker wakes the same task as another (`Waker::will_wake`) is a parameter, any function. A thread's
-- turns are counted with exchanges that fail only for a reason. An access
-- to the word reads its newest value. Status words stay below 32, so the 32 bits of the word are never
-- the limit.
--
-- How memory orderings are modelled. Each access has the ordering that the source declares for it. Per
-- cell, a clock counts the uses, and holds how many of them each thread, and the word, are ordered
-- after: a release passes on to the word what its thread knows, an acquire takes over what the word
-- knows, a relaxed access does neither, and each exchange keeps what the word knows (it goes on with the
-- release sequence). As Rust's borrows are, an exclusive call on the receiver is ordered after the shared
-- and exclusive ones before it, and a shared call after the exclusive ones before it. A use by a thread
-- that is not ordered after all earlier ones is a race. That a relaxed load may read a word that is no
-- longer the newest is not modelled.
--
-- How strings are modelled. A string is the list of its UTF-8 bytes, and a value the list of the
-- bytes of its union, on a little-endian machine with 64-bit words. The heap is a function from
-- addresses to blocks. The allocator is a parameter: a record of its function with three documented
-- facts, that a new block is not in use, is aligned to 2, and has a 64-bit address. Lengths are
-- assumed to be below 2 ^ 64. `none` is what would be undefined behaviour, as a copy past the array of a
-- string on the stack is, or the end of the program in `handle_alloc_error`.
--
-- How forwarding is modelled. A trait is a record of what its implementation does. An implementation
-- of `Forward` may call back into the method, so `call_rpc` and `call_local` recur on a depth of
-- nested calls and have no result at depth 0; two levels are enough, but for the one handle that
-- calls back forever. The receiver that `ForwardReturn::Forward` carries is what its `recv` returns.
-- A future is the list of its polls, up to the one that is ready or panics. The lines that print are
-- left out. In a body that the macro makes, the names stand for what a scope says: kinds select among
-- the handles of the repository, an index is a number, and a type of `self` is `&Self` or is not. A
-- macro that panics, and a body that does not compile, give no code.
--
-- How the RPC example is modelled. A spin lock is interleaved as the channel is, one exchange, use or
-- release of a thread at a time. A stream is the list of its bytes; tokio's reads and writes are a
-- parameter, a record of functions with the facts that a read gives back what a write of its kind
-- put on the stream. A call's error is only that it failed, with the bytes that it had written. A
-- session is a list of actions, of any length: calls, turns of its two loops, and what their reads and
-- writes return. The sender of a reply is a number, and what became of it is recorded in `answers`. A
-- task of a worker is the list of its polls, and one turn of the worker receives or polls a task.
--
-- How the macro is modelled. A list of settings is a list of tokens; identifiers and literals are
-- numbers, and what stands in parentheses is one token. syn's parsers of paths and expressions are a
-- parameter, a record of functions with the facts that a path takes up tokens, that a literal is none
-- and that a lone identifier is one. Types, patterns and items that are not methods are carried over
-- as they are, so they are type parameters; whether a pattern reads as an expression is a parameter too,
-- and `parse_quote!` panics on an argument that does not. A configuration is a map from the names of settings. The
-- loop has as much fuel as there are tokens, which is enough since each setting takes one up. An
-- `assert!` or `unwrap` that fails, or a loop without end, would be a result of its own. The file
-- system that gets a copy of the output is a parameter, a record of functions on its state.
--
-- How the practice runtime is modelled. Names of servers and threads are numbers. A job takes the world,
-- which is the status of each executor and what the jobs work on, to an outcome and a new world. A
-- thread is idle, runs a job, or has stopped; a call to a running thread, from within its job, is
-- `blocked`: it waits for a result that cannot come. A future is driven where it is awaited. A cursor
-- has one more unit of fuel than its plan has steps, and an index past the plan panics. Calls run one at a time; updates that race for
-- the mutex are a list, in the order in which they take it. Scores are integers, and a sum that does
-- not fit an i32 panics, as it does where overflow is checked. Prints and the sleep are left out.
--
-- Not modelled: the tokens that each generated body shares; in examples/rpc, connecting and listening;
-- src/lib.rs, src/main.rs and src/forward/mod.rs, which are empty or a draft; formatting of strings, which
-- the standard library does; the variants of the channel for fewer features; tests and benchmarks.
pub mod Base
pub mod Conlock
pub mod ConstString
pub mod Forward
pub mod Macro
pub mod Rpc
