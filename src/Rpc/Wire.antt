-- ===== src/Rpc/Wire.antt =====
-- examples/rpc/net/async_impl.rs: how a message is written to a stream and read back.
use forwardr.Base.{
  ℕ, ◌^◌, ◌<◌, ◌≡◌, refl, Bool, true, false, ltb, if◌then◌else◌, Option, none, some, List, [], ◌∷◌,
  ◌++◌, ap, length, arith,
}
use forwardr.Rpc.Message.{Message, to_u8, try_from, to_u8-byte, try_from-to_u8}

-- tokio's `AsyncWriteExt` and `AsyncReadExt` on the bytes of a stream. What a write puts on it is
-- read back by the read of that kind, whatever follows. `none` is the end of the stream.
pub record Stream : Type 0 where
  pub write_u32 : ℕ → List ℕ
  pub write_u8 : ℕ → List ℕ
  pub read_u32 : List ℕ → Option (ℕ × List ℕ)
  pub read_u8 : List ℕ → Option (ℕ × List ℕ)
  pub read_exact : ℕ → List ℕ → Option (List ℕ × List ℕ)
  pub reads_u32 :
      (n : ℕ) (rest : List ℕ) → n < 2 ^ 32 → read_u32 (write_u32 n ++ rest) ≡ some (n, rest)
  pub reads_u8 : (n : ℕ) (rest : List ℕ) → n < 256 → read_u8 (write_u8 n ++ rest) ≡ some (n, rest)
  pub reads_exact :
      (bytes rest : List ℕ) → read_exact (length bytes) (bytes ++ rest) ≡ some (bytes, rest)

infixl 5 ◌>>=◌
abbrev pub ◌>>=◌ : {X Y : Type 0} → Option X → (X → Option Y) → Option Y
none >>= f = none
some x >>= f = f x

module _ (w : Stream) where
  -- The bytes put on the stream, and whether the call returned `Ok`: a length that does not fit a
  -- `u32` is found when the id and the type are already written.
  unfoldable pub send_mesage : Message → List ℕ × Bool
  send_mesage m =
      if ltb (length m.bytes) (2 ^ 32)
      then (
        w.write_u32 m.id
            ++ (w.write_u8 (to_u8 m.message_type) ++ (w.write_u32 (length m.bytes) ++ m.bytes)),
        true,
      )
      else (w.write_u32 m.id ++ w.write_u8 (to_u8 m.message_type), false)

  -- `none` is `Err`.
  unfoldable pub recv_message : List ℕ → Option (Message × List ℕ)
  recv_message stream = do
    (id, stream1) ← w.read_u32 stream
    (code, stream2) ← w.read_u8 stream1
    message_type ← try_from code
    (size, stream3) ← w.read_u32 stream2
    (bytes, stream4) ← w.read_exact size stream3
    some (record { id = id; message_type = message_type; bytes = bytes }, stream4)

append_assoc : (xs ys zs : List ℕ) → (xs ++ ys) ++ zs ≡ xs ++ (ys ++ zs)
append_assoc [] ys zs = refl
append_assoc (x ∷ xs) ys zs = ap (λ t. x ∷ t) (append_assoc xs ys zs)

pieces : (a b c d rest : List ℕ) → (a ++ (b ++ (c ++ d))) ++ rest ≡ a ++ (b ++ (c ++ (d ++ rest)))
pieces a b c d rest =
    rw (append_assoc a (b ++ (c ++ d)) rest, append_assoc b (c ++ d) rest, append_assoc c d rest)
      refl

module _ (w : Stream) (m : Message) (rest : List ℕ) where
  -- Reading the pieces of a message one after the other.
  recv_message-pieces :
      m.id < 2 ^ 32
      → length m.bytes < 2 ^ 32
      → recv_message w (
          w.write_u32 m.id
          ++ (w.write_u8 (to_u8 m.message_type)
              ++ (w.write_u32 (length m.bytes) ++ (m.bytes ++ rest))))
        ≡ some (m, rest)
  unfolding recv_message
  recv_message-pieces fits short =
      let t = m.message_type in
      rw
        (
          w.reads_u32 m.id _ fits,
          w.reads_u8 (to_u8 t) _ (to_u8-byte t),
          try_from-to_u8 t,
          w.reads_u32 (length m.bytes) _ short,
          w.reads_exact m.bytes rest,
        )
        refl

  -- A message whose id and length fit a `u32` is sent, and the other end reads just that message off
  -- the stream and leaves what follows.
  pub recv_message-send_mesage :
      m.id < 2 ^ 32
      → length m.bytes < 2 ^ 32
      → ((send_mesage w m).1 ≡ true)
        × (recv_message w ((send_mesage w m).0 ++ rest) ≡ some (m, rest))
  unfolding send_mesage
  recv_message-send_mesage fits short =
      let ok : ltb (length m.bytes) (2 ^ 32) ≡ true = ground arith in
      (rw ok refl, rw (ok, pieces _ _ _ m.bytes rest) (recv_message-pieces fits short))
