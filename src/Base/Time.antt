-- ===== src/Base/Time.antt =====
-- Times as numbers of microseconds since the zero time, as the database keeps them, and their texts:
-- `Format(time.RFC3339)` and `time.Parse(time.RFC3339, …)` of the Go standard library are a record.
use Prim.Native.Nat.{ℕ, ◌*◌, ◌/◌}
use mathlib.Core.Path.{◌≡◌}
use mathlib.Core.Logic.{◌≢◌}
use mathlib.Core.Option.{Option, some}
use mathlib.Core.List.{[]}
use lumen_liquid_backend.Base.Text.{Text}

pub record Rfc3339 : Type 0 where
  pub format : ℕ → Text
  pub parse : Text → Option ℕ

-- The whole second that a time falls in.
abbrev pub whole_second : ℕ → ℕ
whole_second t = t / 1_000_000 * 1_000_000

-- The text of a time is read back as its whole second, and is never empty.
pub record IsClock (clock : Rfc3339) : Type 0 where
  pub reads : (t : ℕ) → clock.parse (clock.format t) ≡ some (whole_second t)
  pub filled : (t : ℕ) → clock.format t ≢ []
