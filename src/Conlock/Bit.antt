-- ===== src/Conlock/Bit.antt =====
-- conlock/src/bit.rs: single-bit masks on a `u32`, and the `with!` macro.
use forwardr.Base.{ℕ, ◌-◌, ◌^◌, Bool, not, ◌==◌, bit_and, bit_or}

-- The `u32` complement `!b`.
abbrev complement : ℕ → ℕ
complement b = 2 ^ 32 - 1 - b

-- The trait `Bit`: a type whose values are masks.
pub record Bit (B : Type 0) : Type 0 where
  pub bit : B → ℕ

module _ {B : Type 0} ⦃mask : Bit B⦄ where
  abbrev pub with_bit : ℕ → B → ℕ
  with_bit w b = bit_or w (mask.bit b)

  abbrev pub without_bit : ℕ → B → ℕ
  without_bit w b = bit_and w (complement (mask.bit b))

  abbrev pub is_bit : ℕ → B → Bool
  is_bit w b = not (bit_and w (mask.bit b) == 0)
