-- ===== src/Repository/ShortId.antt =====
-- job-repository.ts: newShortId, from the three random bytes that it draws, and the pattern
-- ShortJobIdSchema of packages/protocol/src/job.ts that every short id must match.
pub mod Laws
use qwen_harness_bridge.Text.{Text, units}
use qwen_harness_bridge.Prelude.{
  ℕ, ◌≡◌, ◌%◌, ◌/◌, Bool, ◌∷◌, ◌^◌, ◌*◌, leb, [], ◌&&◌, ◌+◌, suc, ◌==◌, ◌||◌, false, zero,
}

unfoldable pub crockford_base32_alphabet : Text
crockford_base32_alphabet = units "0123456789ABCDEFGHJKMNPQRSTVWXYZ"

abbrev pub char_at : Text → ℕ → ℕ
char_at [] i = 0
char_at (c ∷ cs) zero = c
char_at (c ∷ cs) (suc i) = char_at cs i

pub record RandomBytes : Type 0 where
  pub first : ℕ
  pub second : ℕ
  pub third : ℕ

-- ((bytes[0] & 0x0f) << 16) | (bytes[1] << 8) | bytes[2]: the parts do not overlap.
unfoldable pub random_bits : RandomBytes → ℕ
random_bits bytes = bytes.first % 16 * 65536 + bytes.second * 256 + bytes.third

-- alphabet[(bits >>> shift) & 0x1f].
unfoldable pub suffix_digit : ℕ → ℕ → ℕ
suffix_digit bits shift = char_at crockford_base32_alphabet (bits / 2 ^ shift % 32)

unfoldable pub new_short_id : RandomBytes → Text
new_short_id bytes =
    let bits = random_bits bytes in
    b'Q'
    ∷ b'H'
    ∷ b'-'
    ∷ suffix_digit bits 15
    ∷ suffix_digit bits 10
    ∷ suffix_digit bits 5
    ∷ suffix_digit bits 0
    ∷ []

-- [A-Z0-9].
unfoldable pub is_short_char : ℕ → Bool
is_short_char c = (leb b'A' c && leb c b'Z') || (leb b'0' c && leb c b'9')

-- /^QH-[A-Z0-9]{4}$/.
unfoldable pub is_short_job_id : Text → Bool
unfolding is_short_char
is_short_job_id (q ∷ h ∷ d ∷ a ∷ b ∷ c ∷ e ∷ []) =
    (q == b'Q')
    && (h == b'H')
    && (d == b'-')
    && is_short_char a
    && is_short_char b
    && is_short_char c
    && is_short_char e
is_short_job_id _ = false
