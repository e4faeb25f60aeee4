-- ===== src/Rpc/SyncWire.antt =====
-- examples/rpc/net/sync_impl.rs: how a message is written to a blocking stream and read back. The module is
-- commented out in net.rs, and speaks the protocol of net/async_impl.rs.
use forwardr.Base.{
  ℕ, ◌+◌, ◌*◌, ◌/◌, ◌%◌, ◌^◌, ◌<◌, ◌≡◌, refl, ap, ◌∙◌, Bool, true, false, ltb, leb, if◌then◌else◌,
  Option, none, some, List, [], ◌∷◌, ◌++◌, length, length-append, take, drop, take-append,
  drop-append, arith,
}
use forwardr.Rpc.Message.{Message, to_u8, try_from, to_u8-byte}
use forwardr.Rpc.Wire.{Stream, ◌>>=◌, send_mesage, recv_message, recv_message-send_mesage}

-- `u32::to_be_bytes`, and `u32::from_be_bytes` of an array of four.
abbrev pub to_be_bytes : ℕ → List ℕ
to_be_bytes n = n / 16777216 % 256 ∷ n / 65536 % 256 ∷ n / 256 % 256 ∷ n % 256 ∷ []

abbrev pub from_be_bytes : (a b c d : ℕ) → ℕ
from_be_bytes a b c d = 16777216 * a + 65536 * b + 256 * c + d

-- `Read::read_exact` on the bytes of a stream; `none` is the error at its end.
abbrev pub read_exact : ℕ → List ℕ → Option (List ℕ × List ℕ)
read_exact n stream = if leb n (length stream) then some (take n stream, drop n stream) else none

-- `ReadUnsigned::read_from`, of a `u32` and of a `u8`.
unfoldable pub read_u32_from : List ℕ → Option (ℕ × List ℕ)
read_u32_from (a ∷ b ∷ c ∷ d ∷ stream) = some (from_be_bytes a b c d, stream)
read_u32_from _ = none

unfoldable pub read_u8_from : List ℕ → Option (ℕ × List ℕ)
read_u8_from (a ∷ stream) = some (a, stream)
read_u8_from [] = none

-- The header is made before anything is written: a length that does not fit a `u32` leaves the stream as
-- it was.
unfoldable pub sync_send_mesage : Message → List ℕ × Bool
sync_send_mesage m =
    if ltb (length m.bytes) (2 ^ 32)
    then (
      to_be_bytes m.id ++ (to_u8 m.message_type ∷ (to_be_bytes (length m.bytes) ++ m.bytes)),
      true,
    )
    else ([], false)

unfoldable pub sync_recv_message : List ℕ → Option (Message × List ℕ)
unfolding read_u32_from read_u8_from
sync_recv_message stream = do
  (id, stream1) ← read_u32_from stream
  (code, stream2) ← read_u8_from stream1
  message_type ← try_from code
  (size, stream3) ← read_u32_from stream2
  (buffer, stream4) ← read_exact size stream3
  some (record { id = id; message_type = message_type; bytes = buffer }, stream4)

from_be_bytes-to_be_bytes :
    (n : ℕ) (rest : List ℕ) → n < 2 ^ 32 → read_u32_from (to_be_bytes n ++ rest) ≡ some (n, rest)
unfolding read_u32_from
from_be_bytes-to_be_bytes n rest fits = ground arith

read_exact-append :
    (bytes rest : List ℕ) → read_exact (length bytes) (bytes ++ rest) ≡ some (bytes, rest)
read_exact-append bytes rest =
    ground (arith, take-append bytes rest, drop-append bytes rest, length-append bytes rest)

-- The blocking calls, as calls on a stream.
blocking : Stream
unfolding read_u32_from read_u8_from
blocking = record {
  write_u32 = to_be_bytes;
  write_u8 = λ b. b ∷ [];
  read_u32 = read_u32_from;
  read_u8 = read_u8_from;
  read_exact = read_exact;
  reads_u32 = from_be_bytes-to_be_bytes;
  reads_u8 = λ n rest fits. refl;
  reads_exact = read_exact-append;
}

sync_recv_message-blocking :
    (stream : List ℕ) → sync_recv_message stream ≡ recv_message blocking stream
unfolding sync_recv_message recv_message blocking
sync_recv_message-blocking stream = refl

module _ (w : Stream) (puts_u32 : (n : ℕ) → n < 2 ^ 32 → w.write_u32 n ≡ to_be_bytes n)
    (puts_u8 : (b : ℕ) → b < 256 → w.write_u8 b ≡ b ∷ []) (m : Message) (fits : m.id < 2 ^ 32)
    (short : length m.bytes < 2 ^ 32) where
  sends_alike : sync_send_mesage m ≡ send_mesage w m
  unfolding sync_send_mesage send_mesage
  sends_alike =
      let ok : ltb (length m.bytes) (2 ^ 32) ≡ true = ground arith in
      rw
        (
          ok,
          puts_u32 m.id fits,
          puts_u8 (to_u8 m.message_type) (to_u8-byte m.message_type),
          puts_u32 (length m.bytes) short,
        )
        refl

  sent_blocking : send_mesage w m ≡ send_mesage blocking m
  unfolding send_mesage blocking
  sent_blocking =
      rw
        (
          puts_u32 m.id fits,
          puts_u8 (to_u8 m.message_type) (to_u8-byte m.message_type),
          puts_u32 (length m.bytes) short,
        )
        refl

  -- A blocking end and an end on tokio understand each other, if tokio writes a `u32` with its highest byte
  -- first and a `u8` as one byte. A message whose id and length fit a `u32` is put on the stream as the
  -- same bytes by both; and each reads just that message off the stream from the other.
  pub sync_interoperates :
      (rest : List ℕ)
      → (sync_send_mesage m ≡ send_mesage w m)
        × (recv_message w ((sync_send_mesage m).0 ++ rest) ≡ some (m, rest))
        × (sync_recv_message ((send_mesage w m).0 ++ rest) ≡ some (m, rest))
  sync_interoperates rest = (
    sends_alike,
    ap (λ q. recv_message w (q.0 ++ rest)) sends_alike
        ∙ (recv_message-send_mesage w m rest fits short).1,
    sync_recv_message-blocking ((send_mesage w m).0 ++ rest)
        ∙ ap (λ q. recv_message blocking (q.0 ++ rest)) sent_blocking
        ∙ (recv_message-send_mesage blocking m rest fits short).1,
  )
