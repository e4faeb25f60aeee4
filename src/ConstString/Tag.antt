-- ===== src/ConstString/Tag.antt =====
-- The tag bit tells the two layouts apart.
use forwardr.Base.{
  ℕ, zero, suc, ◌+◌, ◌*◌, ◌%◌, ◌<◌, ◌≡◌, refl, Bool, true, ◌&&◌, ◌==◌, bit_and, bit_or, arith,
}

-- Two functions agree on every number below a bound, by evaluation.
agree_under : (f g : ℕ → ℕ) → ℕ → Bool
agree_under f g zero = true
agree_under f g (suc n) = f n == g n && agree_under f g n

agree_under→eq : (f g : ℕ → ℕ) (n : ℕ) → agree_under f g n ≡ true → (i : ℕ) → i < n → f i ≡ g i
unfolding agree_under
agree_under→eq f g zero e i h = absurd (omega arith)
agree_under→eq f g (suc n) e i h = ground (arith, agree_under→eq f g n (ground arith) i)

pub bit_and-one_byte : (b : ℕ) → b < 256 → bit_and b 1 ≡ b % 2
unfolding agree_under
bit_and-one_byte = agree_under→eq _ _ 256 refl

-- `(len as u8) << 1 | 1`, for a length that fits.
pub header_value : (n : ℕ) → n < 16 → bit_or (n % 256 * 2 % 256) 1 ≡ 2 * n + 1
unfolding agree_under
header_value = agree_under→eq _ _ 16 refl
