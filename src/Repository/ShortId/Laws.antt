-- ===== src/Repository/ShortId/Laws.antt =====
-- The short ids that newShortId draws.
use qwen_harness_bridge.Repository.ShortId.{
  new_short_id, is_short_char, crockford_base32_alphabet, suffix_digit, char_at, is_short_job_id,
  RandomBytes, random_bits,
}
use qwen_harness_bridge.Text.{Text}
use qwen_harness_bridge.Prelude.{
  ℕ, ◌≡◌, Bool, ◌/◌, ◌∷◌, true, ◌==◌, ◌^◌, refl, suc, ◌<◌, ◌*◌, ◌+◌, arith, ◌&&◌, if◌then◌else◌,
  ◌%◌, ==_iff, [], zero, ◌≤◌, Bool-cases, inl, inr,
}

-- A test of every one of the 32 values that five bits can have.
passes_up_to : (ℕ → Bool) → ℕ → Bool
passes_up_to test zero = test 0
passes_up_to test (suc top) = passes_up_to test top && test (suc top)

passes_up_to_lem :
    (test : ℕ → Bool) (top : ℕ)
    → passes_up_to test top ≡ true
    → (value : ℕ) → value ≤ top
    → test value ≡ true
unfolding passes_up_to
passes_up_to_lem test zero passed zero small = passed
passes_up_to_lem test zero passed (suc value) small = absurd (omega arith)
passes_up_to_lem test (suc top) passed value small = elim (Bool-cases (value == suc top)) [
  | inl same ↦ rw ((==_iff value (suc top)).0 same) (ground arith)
  | inr apart ↦
      passes_up_to_lem test top (ground arith) value (ground (arith, ==_iff value (suc top)))
]

digit_table : passes_up_to (λ n. is_short_char (char_at crockford_base32_alphabet n)) 31 ≡ true
unfolding passes_up_to is_short_char crockford_base32_alphabet
digit_table = refl

suffix_digit-is_short_char : (bits shift : ℕ) → is_short_char (suffix_digit bits shift) ≡ true
unfolding suffix_digit
suffix_digit-is_short_char bits shift =
    passes_up_to_lem (λ n. is_short_char (char_at crockford_base32_alphabet n)) 31 digit_table
      (bits / 2 ^ shift % 32) (omega arith)

-- The number that a digit of the alphabet stands for.
unfoldable pub digit_value : Text → ℕ → ℕ
digit_value [] c = 0
digit_value (d ∷ ds) c = let rest = suc (digit_value ds c) in if d == c then 0 else rest

-- The 20 random bits, read back from a short id.
unfoldable pub read_bits : Text → ℕ
read_bits (q ∷ h ∷ d ∷ a ∷ b ∷ c ∷ e ∷ []) =
    digit_value crockford_base32_alphabet a * 32768
    + digit_value crockford_base32_alphabet b * 1024
    + digit_value crockford_base32_alphabet c * 32
    + digit_value crockford_base32_alphabet e
read_bits _ = 0

value_table :
    passes_up_to
      (λ n. digit_value crockford_base32_alphabet (char_at crockford_base32_alphabet n) == n)
      31
    ≡ true
unfolding passes_up_to digit_value crockford_base32_alphabet
value_table = refl

digit_value-suffix_digit :
    (bits shift : ℕ)
    → digit_value crockford_base32_alphabet (suffix_digit bits shift) ≡ bits / 2 ^ shift % 32
unfolding suffix_digit
digit_value-suffix_digit bits shift = (==_iff _ _).0 (
    passes_up_to_lem
      (λ n. digit_value crockford_base32_alphabet (char_at crockford_base32_alphabet n) == n) 31
      value_table (bits / 2 ^ shift % 32) (omega arith))

random_bits-lt :
    (bytes : RandomBytes) → bytes.second < 256 → bytes.third < 256 → random_bits bytes < 1048576
unfolding random_bits
random_bits-lt bytes small smaller = omega arith

-- Every short id that is drawn from three bytes matches ShortJobIdSchema, and its last four characters
-- give back all 20 random bits: distinct draws of the bits give distinct short ids.
pub new_short_id-valid :
    (bytes : RandomBytes)
    → bytes.second < 256
    → bytes.third < 256
    → (is_short_job_id (new_short_id bytes) ≡ true)
      × (read_bits (new_short_id bytes) ≡ random_bits bytes)
unfolding new_short_id is_short_job_id read_bits
new_short_id-valid bytes small smaller =
    let bits = random_bits bytes in
    (
      ground (
        arith,
        suffix_digit-is_short_char bits 15,
        suffix_digit-is_short_char bits 10,
        suffix_digit-is_short_char bits 5,
        suffix_digit-is_short_char bits 0,
      ),
      omega (
        arith,
        random_bits-lt bytes small smaller,
        digit_value-suffix_digit bits 15,
        digit_value-suffix_digit bits 10,
        digit_value-suffix_digit bits 5,
        digit_value-suffix_digit bits 0,
      ),
    )
