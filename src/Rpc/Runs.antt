-- ===== src/Rpc/Runs.antt =====
-- The example's parts on concrete data, and the theorems there.
use forwardr.Base.{
  ℕ, ◌+◌, ◌*◌, ◌/◌, ◌%◌, ◌^◌, ◌<◌, ◌≤◌, ◌≡◌, refl, true, false, leb, if◌then◌else◌, Option, none,
  some, List, [], ◌∷◌, ◌++◌, length, length-append, total, take, drop, take-append, drop-append,
  arith,
}
use forwardr.Base.Dict.{lookup}
use forwardr.Rpc.Lock.{
  LockAction, call_lock, try_lock, use_guard, end_guard, share_run, start, holds, locked,
  mutual_exclusion,
}
use forwardr.Rpc.Message.{Message, MessageType, to_u8}
use forwardr.Rpc.Session.{
  IoSession, SessionAction, receiving, run_send_next, end_send_mesage, end_recv_message,
  session_step, session_run,
}
use forwardr.Rpc.Worker.{Task, finish, panic, wait, worker, worker_run, worker_run-effects}
use forwardr.Rpc.Server.{serve, read_reply, serve-answers}
use forwardr.Rpc.SyncWire.{sync_send_mesage, sync_recv_message, sync_interoperates}
use forwardr.Rpc.SyncSession.{SyncSession, sync_step, sync_run, reader_end-strands}
use forwardr.Rpc.Wire.{Stream, send_mesage, recv_message, recv_message-send_mesage}

-- Thread 0 has the lock and adds 3; thread 1 tries, and gets it once thread 0 is done.
abbrev two_threads : List (LockAction ℕ)
two_threads =
    call_lock 0
    ∷ call_lock 1
    ∷ try_lock 0 true
    ∷ try_lock 0 false
    ∷ try_lock 1 false
    ∷ use_guard 0 (λ n. n + 3)
    ∷ end_guard 0
    ∷ try_lock 1 false
    ∷ []

two_threads-end : (share_run two_threads (start 2 4)).spin.data_cell ≡ 7
unfolding share_run
two_threads-end = refl

mutual_exclusion_example :
    (total holds (share_run two_threads (start 2 4)).threads ≤ 1)
    × (total holds (share_run two_threads (start 2 4)).threads
        ≡ locked (share_run two_threads (start 2 4)).spin.lock)
mutual_exclusion_example = mutual_exclusion 2 4 two_threads

-- Four bytes, the highest first.
abbrev put_word : ℕ → List ℕ
put_word n = n / 16777216 % 256 ∷ n / 65536 % 256 ∷ n / 256 % 256 ∷ n % 256 ∷ []

abbrev get_word : List ℕ → Option (ℕ × List ℕ)
get_word (a ∷ b ∷ c ∷ d ∷ rest) = some (16777216 * a + 65536 * b + 256 * c + d, rest)
get_word _ = none

abbrev get_byte : List ℕ → Option (ℕ × List ℕ)
get_byte [] = none
get_byte (b ∷ bs) = some (b, bs)

abbrev get_exact : ℕ → List ℕ → Option (List ℕ × List ℕ)
get_exact n bytes = if leb n (length bytes) then some (take n bytes, drop n bytes) else none

get_word-put_word :
    (n : ℕ) (rest : List ℕ) → n < 2 ^ 32 → get_word (put_word n ++ rest) ≡ some (n, rest)
get_word-put_word n rest fits = ground arith

get_exact-append :
    (bytes rest : List ℕ) → get_exact (length bytes) (bytes ++ rest) ≡ some (bytes, rest)
get_exact-append bytes rest =
    ground (arith, take-append bytes rest, drop-append bytes rest, length-append bytes rest)

abbrev network : Stream
network = record {
  write_u32 = put_word;
  write_u8 = λ b. b ∷ [];
  read_u32 = get_word;
  read_u8 = get_byte;
  read_exact = get_exact;
  reads_u32 = get_word-put_word;
  reads_u8 = λ n rest fits. refl;
  reads_exact = get_exact-append;
}

abbrev hello : Message
hello = record { id = 258; message_type = MessageType.rpc_request; bytes = 104 ∷ 105 ∷ [] }

hello-bytes : send_mesage network hello ≡ (0 ∷ 0 ∷ 1 ∷ 2 ∷ 5 ∷ 0 ∷ 0 ∷ 0 ∷ 2 ∷ 104 ∷ 105 ∷ [], true)
unfolding send_mesage to_u8
hello-bytes = refl

recv_message-send_mesage_example :
    ((send_mesage network hello).1 ≡ true)
    × (recv_message network ((send_mesage network hello).0 ++ (9 ∷ [])) ≡ some (hello, 9 ∷ []))
recv_message-send_mesage_example =
    recv_message-send_mesage network hello (9 ∷ []) (ground arith) (ground arith)

sync_interoperates_example :
    (sync_send_mesage hello ≡ send_mesage network hello)
    × (recv_message network ((sync_send_mesage hello).0 ++ (9 ∷ [])) ≡ some (hello, 9 ∷ []))
    × (sync_recv_message ((send_mesage network hello).0 ++ (9 ∷ [])) ≡ some (hello, 9 ∷ []))
sync_interoperates_example =
    sync_interoperates network (λ n fits. refl) (λ b fits. refl) hello (ground arith) (ground arith)
      (9 ∷ [])

-- A session on threads, with a request that waits and one in the queue.
abbrev two_requests : SyncSession
two_requests = record {
  has_clients = true;
  queue = (hello, 41) ∷ [];
  pending = (7, 40) ∷ [];
  phase = receiving;
  is_reading = true;
  answers = [];
}

abbrev later_actions : List SessionAction
later_actions = run_send_next ∷ end_send_mesage true ∷ end_recv_message (some hello) ∷ []

reader_end-strands_example :
    let after = sync_run (end_recv_message none ∷ later_actions) two_requests in
    (lookup 7 after.pending ≡ some 40) × (after.is_reading ≡ false)
unfolding sync_step
reader_end-strands_example =
    reader_end-strands 7 40 later_actions two_requests refl refl refl refl
      (refl, (refl, (refl, tt)))

-- A session with one request, taken up and sent.
abbrev one_request : IoSession
one_request = record {
  has_clients = true;
  queue = (hello, 40) ∷ [];
  pending = [];
  phase = receiving;
  is_alive = true;
  asked = 40 ∷ [];
  answers = [];
}

serve-answers_example :
    (session_step
      (read_reply network (serve network ((send_mesage network hello).0 ++ (1 ∷ [])) ++ (2 ∷ [])))
      (session_run (end_send_mesage true ∷ []) (session_step run_send_next one_request))).answers
    ≡ (40, some []) ∷ []
unfolding session_run session_step
serve-answers_example =
    serve-answers network one_request hello 40 [] (end_send_mesage true ∷ []) (1 ∷ []) (2 ∷ [])
      (ground arith) (ground arith) refl refl refl (refl, tt)

-- A task that panics between two that do not.
abbrev three_tasks : List (Task ℕ)
three_tasks =
    wait (λ n. n + 1) (finish (λ n. n * 2)) ∷ panic (λ n. n + 5) ∷ finish (λ n. n + 1) ∷ []

worker_run-effects_example : worker_run 7 (worker three_tasks none 3 0) ≡ worker [] none 14 2
worker_run-effects_example = worker_run-effects three_tasks 3 0 0
