-- ===== src/Database/Clock.antt =====
-- What the database server supplies to one transaction: `now()`, which stands still, the successive
-- readings of `clock_timestamp()`, and the identifiers that column defaults and `randomUUID` draw.
use qwen_harness_bridge.Prelude.{ℕ, ◌≤◌, suc, ◌*◌}
use qwen_harness_bridge.Database.{Key, Time}

pub record Clock : Type 0 where
  pub now : Time
  pub reading : ℕ → Time

-- The server's clock does not run backwards within a transaction.
pub record IsMonotone (c : Clock) : Type 0 where
  pub started : c.now ≤ c.reading 0
  pub runs : (n : ℕ) → c.reading n ≤ c.reading (suc n)

pub record FreshIds : Type 0 where
  pub job : Key
  pub event : Key
  pub event_message : Key
  pub event_correlation : Key
  pub command_message : Key
  pub command_correlation : Key
  pub nonce : Key

abbrev pub hours : ℕ → Time
hours n = n * 3600000

abbrev pub days : ℕ → Time
days n = hours (n * 24)
