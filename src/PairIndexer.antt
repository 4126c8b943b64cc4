-- ===== src/PairIndexer.antt =====
-- cmd/pair-indexer/main.go: a snapshot of the registry contract in the tables of pairs, groups and
-- fee accumulators. The command line tool is a function from the number of an attempt to how that
-- run ends; the answers of the contract, read and parsed, are the record `Registry`. The end of the
-- context, the pause between pairs and the times of the writes are left out.
pub mod Attempts
pub mod Sync
pub mod Rounds
pub mod Mirror
use lumen_liquid_backend.Base.{
  ℕ, zero, suc, ◌+◌, ◌*◌, Bool, true, false, not, ◌||◌, Option, none, some, List, [], ◌∷◌,
  if◌then◌else◌, ◌==◌, nat_eq, text_eq, nat_beq, ltb,
}
use lumen_liquid_backend.Base.Text.{Text, codes, contains}
use lumen_liquid_backend.Base.Strings.{trim_space, to_lower}
use lumen_liquid_backend.Base.Assoc.{Map, insert}

pub record CliRun : Type 0 where
  pub succeeded : Bool
  pub stdout : Text
  pub stderr : Text

-- What `callContract` returns: the output, or an error with the attempt and the diagnosis.
pub data CallOutput : Type 0 where
  output : Text → CallOutput
  call_failed : ℕ → Text → CallOutput

-- With the number of runs and the time waited between them.
pub record Called : Type 0 where
  pub result : CallOutput
  pub runs : ℕ
  pub waited : ℕ

abbrev contains_any : List Text → Text → Bool
contains_any [] s = false
contains_any (signal ∷ signals) s = contains s signal || contains_any signals s

abbrev signals : List Text
signals =
    codes "429"
    ∷ codes "rejected"
    ∷ codes "too many requests"
    ∷ codes "rate limit"
    ∷ codes "timeout"
    ∷ codes "connection refused"
    ∷ codes "context deadline exceeded"
    ∷ []

unfoldable pub is_retryable_output : Text → Bool
is_retryable_output out = contains_any signals (to_lower out)

-- One second, in the nanoseconds of `time.Duration`.
abbrev pub a_second : ℕ
a_second = 1_000_000_000

unfoldable pub next_backoff : ℕ → ℕ
next_backoff current =
    if current == 0
    then a_second
    else if ltb (30 * a_second) (current * 2)
    then 30 * a_second
    else current * 2

abbrev pub max_attempts : ℕ
max_attempts = 6

abbrev pub is_retryable : CliRun → Bool
is_retryable r =
    is_retryable_output (trim_space r.stderr) || is_retryable_output (trim_space r.stdout)

-- Standard error, or standard output where that is empty.
abbrev pub diagnosis : CliRun → Text
diagnosis r = if trim_space r.stderr == [] then trim_space r.stdout else trim_space r.stderr

module _ (cli : ℕ → CliRun) where
  -- The loop from an attempt on, with the attempts left and the time waited so far.
  unfoldable pub attempts_from : ℕ → ℕ → ℕ → ℕ → Called
  attempts_from zero attempt backoff waited = record {
    result = call_failed attempt [];
    runs = attempt;
    waited = waited;
  }
  attempts_from (suc left) attempt backoff waited =
      let r = cli attempt in
      let wait = next_backoff backoff in
      let later = attempts_from left (attempt + 1) wait (waited + wait) in
      if r.succeeded
      then record { result = output (trim_space r.stdout); runs = attempt; waited = waited }
      else if nat_beq attempt max_attempts || not (is_retryable r)
      then record { result = call_failed attempt (diagnosis r); runs = attempt; waited = waited }
      else later

  unfoldable pub call_contract : Called
  call_contract = attempts_from max_attempts 1 0 0

pub record ReflectorAsset : Type 0 where
  pub stellar : Option Text
  pub other : Option Text

pub record PairInfo : Type 0 where
  pub symbol : Text
  pub reflector_asset : ReflectorAsset
  pub group_index : ℕ
  pub spread_p : Text
  pub min_leverage : ℕ
  pub max_leverage : ℕ
  pub min_lev_pos_usdc : Text
  pub max_oi_usdc : Text
  pub max_neg_pnl_p : Text
  pub liq_threshold_p : ℕ
  pub max_gain_p : ℕ
  pub disabled : Bool

pub record Group : Type 0 where
  pub name : Text
  pub max_collateral_usdc : Text
  pub open_fee_p : Text
  pub close_fee_p : Text

-- The fields that are used of `RolloverState` and `FundingState`.
pub record FeeState : Type 0 where
  pub fee_per_ledger_p : Text

pub record Oi : Type 0 where
  pub long : Text
  pub short : Text

-- A row of `pairs`.
pub record PairRecord : Type 0 where
  pub info : PairInfo
  pub asset_type : Text
  pub asset : Text
  pub one_percent_depth : Text

-- A row of `pair_fee_accumulators`.
pub record FeeRecord : Type 0 where
  pub acc_rollover : Text
  pub acc_funding_long : Text
  pub acc_funding_short : Text
  pub rollover_fee_per_ledger_p : Text
  pub funding_fee_per_ledger_p : Text
  pub projected_at_ledger : ℕ

pub record Tables : Type 0 where
  pub pairs : Map ℕ PairRecord
  pub groups : Map ℕ Group
  pub fees : Map ℕ FeeRecord
  pub oi : Map ℕ Oi
