-- ===== src/PairIndexer/Sync.antt =====
-- The loop of cmd/pair-indexer/main.go over the pairs, and the writes of one round.
use lumen_liquid_backend.Base.{
  ℕ, zero, suc, ◌+◌, Bool, true, false, Option, none, some, List, [], ◌∷◌, if◌then◌else◌, ◌==◌,
  nat_eq,
}
use lumen_liquid_backend.Base.Text.{Text, codes}
use lumen_liquid_backend.Base.Assoc.{insert}
use lumen_liquid_backend.PairIndexer.{
  ReflectorAsset, PairInfo, Group, FeeState, Oi, PairRecord, FeeRecord, Tables,
}

-- Each read is `callContract` and `json.Unmarshal`, `none` an error of either; `projected_funding`
-- is the raw answer, which the two decoders read as strings and as any values, printed. The last
-- four fields say whether the database takes a write.
pub record Registry : Type 0 where
  pub pair : ℕ → Option PairInfo
  pub depth : ℕ → Option Text
  pub group : ℕ → Option Group
  pub rollover : ℕ → Option FeeState
  pub funding : ℕ → Option FeeState
  pub oi : ℕ → Option Oi
  pub projected_rollover : ℕ → ℕ → Option Text
  pub projected_funding : ℕ → ℕ → Option Text
  pub strings : Text → Option (List Text)
  pub printed : Text → Option (List Text)
  pub takes_pair : ℕ → Bool
  pub takes_group : ℕ → Bool
  pub takes_fees : ℕ → Bool
  pub takes_oi : ℕ → Bool

-- The first two values.
abbrev pub two_of : List Text → Option (Text × Text)
two_of (a ∷ b ∷ rest) = some (a, b)
two_of _ = none

-- A list of strings with two values at least, or else a list of any values with two at least.
abbrev pub second_reading : Option (List Text) → Option (Text × Text)
second_reading none = none
second_reading (some xs) = two_of xs

unfoldable pub parse_funding_pair : Option (List Text) → Option (List Text) → Option (Text × Text)
parse_funding_pair none printed = second_reading printed
parse_funding_pair (some xs) printed = elim (two_of xs) [
  | none ↦ second_reading printed
  | some p ↦ some p
]

abbrev pub asset_of : ReflectorAsset → Text × Text
asset_of a = elim a.stellar [
  | some s ↦ (codes "stellar", s)
  | none ↦ elim a.other [ some o ↦ (codes "other", o) | none ↦ (codes "other", []) ]
]

abbrev pub depth_or_zero : Option Text → Text
depth_or_zero none = codes "0"
depth_or_zero (some d) = d

abbrev pub pair_record : PairInfo → Option Text → PairRecord
pair_record p depth = record {
  info = p;
  asset_type = (asset_of p.reflector_asset).0;
  asset = (asset_of p.reflector_asset).1;
  one_percent_depth = depth_or_zero depth;
}

unfoldable pub upsert_pair : ℕ → PairInfo → Option Text → Tables → Tables
upsert_pair i p depth t = record t { pairs = insert i (pair_record p depth) t.pairs }

unfoldable pub upsert_group : ℕ → Group → Tables → Tables
upsert_group i g t = record t { groups = insert i g t.groups }

-- The two writes of `syncFeeAccumulators`; after a failed one the next is not made.
abbrev pub put_fees : Bool → Bool → ℕ → FeeRecord → Oi → Tables → Tables
put_fees false takes_oi i fees oi t = t
put_fees true false i fees oi t = record t { fees = insert i fees t.fees }
put_fees true true i fees oi t = record t { fees = insert i fees t.fees; oi = insert i oi t.oi }

-- The tables, and the groups that are synced already.
pub record Progress : Type 0 where
  pub tables : Tables
  pub groups_seen : ℕ → Bool

abbrev pub unsynced : Tables → Progress
unsynced t = record { tables = t; groups_seen = λ g. false }

abbrev pub saw : ℕ → (ℕ → Bool) → ℕ → Bool
saw g seen h = if h == g then true else seen h

module _ (reg : Registry) (at_ledger : ℕ) where
  abbrev pub funding_pair : Option Text → Option (Text × Text)
  funding_pair none = none
  funding_pair (some raw) = parse_funding_pair (reg.strings raw) (reg.printed raw)

  abbrev pub fees_read :
      ℕ
      → Option FeeState
      → Option FeeState
      → Option Oi
      → Option Text
      → Option (Text × Text)
      → Tables
      → Tables
  fees_read i (some roll) (some fund) (some oi) (some acc) (some (long, short)) t =
      put_fees (reg.takes_fees i) (reg.takes_oi i) i
        (record {
          acc_rollover = acc;
          acc_funding_long = long;
          acc_funding_short = short;
          rollover_fee_per_ledger_p = roll.fee_per_ledger_p;
          funding_fee_per_ledger_p = fund.fee_per_ledger_p;
          projected_at_ledger = at_ledger;
        })
        oi t
  fees_read i roll fund oi acc pair t = t

  -- `syncFeeAccumulators`: one failed read, and nothing is written.
  unfoldable pub sync_fee_accumulators : ℕ → Tables → Tables
  sync_fee_accumulators i t =
      fees_read i (reg.rollover i) (reg.funding i) (reg.oi i) (reg.projected_rollover i at_ledger)
        (funding_pair (reg.projected_funding i at_ledger)) t

  abbrev pub group_read : ℕ → Option Group → Progress → Progress
  group_read g none s = s
  group_read g (some group) s =
      if reg.takes_group g
      then record { tables = upsert_group g group s.tables; groups_seen = saw g s.groups_seen }
      else s

  unfoldable pub sync_group : ℕ → Progress → Progress
  sync_group g s = if s.groups_seen g then s else group_read g (reg.group g) s

  abbrev pub pair_read : ℕ → Option PairInfo → Progress → Progress
  pair_read i none s = s
  pair_read i (some p) s =
      if reg.takes_pair i
      then sync_group p.group_index
          (record s { tables = sync_fee_accumulators i (upsert_pair i p (reg.depth i) s.tables) })
      else s

  -- One round of the loop in `main`.
  unfoldable pub sync_pair : ℕ → Progress → Progress
  sync_pair i s = pair_read i (reg.pair i) s

  unfoldable pub sync_from : ℕ → ℕ → Progress → Progress
  sync_from zero i s = s
  sync_from (suc n) i s = sync_from n (i + 1) (sync_pair i s)

  unfoldable pub sync : ℕ → Tables → Progress
  sync pairs_count t = sync_from pairs_count 0 (unsynced t)
