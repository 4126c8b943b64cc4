-- ===== src/Events.antt =====
-- internal/events/decode.go: the typed event, and the classification of its topic. A Go `switch` on
-- the topic string is the topic's constructor followed by clauses.
pub mod Decode
use lumen_liquid_backend.Base.{
  ℕ, Bool, true, false, Option, none, some, List, [], ◌∷◌, if◌then◌else◌, ◌==◌, text_eq,
}
use lumen_liquid_backend.Base.Int.{ℤ}
use lumen_liquid_backend.Base.Text.{Text, codes}
use lumen_liquid_backend.Soroban.ScVal.{Value, null}

pub data Source : Type 0 where
  pm vault registry unknown : Source

pub record Trade : Type 0 where
  pub pair_index : ℕ
  pub is_long : Bool
  pub leverage : ℕ
  pub open_price : Option ℤ
  pub collateral : Option ℤ
  pub acc_rollover_open : Option ℤ
  pub acc_funding_open : Option ℤ
  pub tp_price : Option ℤ
  pub sl_price : Option ℤ

pub record LimitOrder : Type 0 where
  pub pair_index : ℕ
  pub is_long : Bool
  pub collateral : Option ℤ
  pub leverage : ℕ
  pub limit_price : Option ℤ
  pub tp_price : Option ℤ
  pub sl_price : Option ℤ

-- An `*int32` is an `Option ℤ`, a `*big.Int` too.
pub record Event : Type 0 where
  pub source : Source
  pub topic : Text
  pub contract_id : Text
  pub tx_hash : Text
  pub event_index : ℕ
  pub ledger : ℕ
  pub occurred_at : Text
  pub trader : Text
  pub pair_index : Option ℤ
  pub trade_index : Option ℤ
  pub limit_index : Option ℤ
  pub group_index : Option ℤ
  pub oi_is_long : Option Bool
  pub trade : Option Trade
  pub limit : Option LimitOrder
  pub assets : Option ℤ
  pub shares : Option ℤ
  pub net_pnl : Option ℤ
  pub gross_payout : Option ℤ
  pub amount : Option ℤ
  pub rate_per : Option ℤ
  pub fee_per : Option ℤ
  pub symbol : Text
  pub open_fee : Option ℤ
  pub close_fee : Option ℤ
  pub close_price : Option ℤ
  pub tp_price : Option ℤ
  pub sl_price : Option ℤ
  pub limit_price : Option ℤ
  pub raw_topics : List Value
  pub raw_data : Value

-- The zero value of `Event`; a source that was never set is none of the three.
abbrev pub empty_event : Event
empty_event = record {
  source = unknown;
  topic = [];
  contract_id = [];
  tx_hash = [];
  event_index = 0;
  ledger = 0;
  occurred_at = [];
  trader = [];
  pair_index = none;
  trade_index = none;
  limit_index = none;
  group_index = none;
  oi_is_long = none;
  trade = none;
  limit = none;
  assets = none;
  shares = none;
  net_pnl = none;
  gross_payout = none;
  amount = none;
  rate_per = none;
  fee_per = none;
  symbol = [];
  open_fee = none;
  close_fee = none;
  close_price = none;
  tp_price = none;
  sl_price = none;
  limit_price = none;
  raw_topics = [];
  raw_data = null;
}

pub data PmTopic : Type 0 where
  opened closed placed executed canceled updated_limit updated_tp_sl tp_sl_executed liq other :
      PmTopic

pub data VaultTopic : Type 0 where
  deposit withdraw settle take_collat bad_debt untyped other : VaultTopic

pub data RegistryTopic : Type 0 where
  pair_added pair_updated pair_disabled funding_rate rollover_rate depth group_added group_updated
        open_fee close_fee max_pos oi_add oi_sub other :
      RegistryTopic

-- The first name in the table that is the topic.
abbrev find_topic {ℓ} : {A : Type ℓ} → Text → List (Text × A) → A → A
find_topic t [] d = d
find_topic t ((name, a) ∷ rest) d = if t == name then a else find_topic t rest d

unfoldable pub pm_topic : Text → PmTopic
pm_topic t =
    find_topic t
      ((codes "opened", opened)
        ∷ (codes "closed", closed)
        ∷ (codes "placed", placed)
        ∷ (codes "executed", executed)
        ∷ (codes "canceled", canceled)
        ∷ (codes "updated_limit", updated_limit)
        ∷ (codes "updated_tp_sl", updated_tp_sl)
        ∷ (codes "tp_sl_executed", tp_sl_executed)
        ∷ (codes "liq", liq)
        ∷ [])
      PmTopic.other

-- `untyped` stands for the topics of the vault that have no typed fields.
unfoldable pub vault_topic : Text → VaultTopic
vault_topic t =
    find_topic t
      ((codes "deposit", deposit)
        ∷ (codes "withdraw", withdraw)
        ∷ (codes "settle", settle)
        ∷ (codes "take_collat", take_collat)
        ∷ (codes "bad_debt", bad_debt)
        ∷ (codes "transfer", untyped)
        ∷ (codes "burn", untyped)
        ∷ (codes "approve", untyped)
        ∷ (codes "set_lock", untyped)
        ∷ (codes "set_pm", untyped)
        ∷ (codes "paused", untyped)
        ∷ (codes "unpaused", untyped)
        ∷ (codes "upgraded", untyped)
        ∷ (codes "init", untyped)
        ∷ [])
      VaultTopic.other

unfoldable pub registry_topic : Text → RegistryTopic
registry_topic t =
    find_topic t
      ((codes "pair_added", pair_added)
        ∷ (codes "pair_updated", pair_updated)
        ∷ (codes "pair_disabled", pair_disabled)
        ∷ (codes "funding_rate", funding_rate)
        ∷ (codes "rollover_rate", rollover_rate)
        ∷ (codes "depth", depth)
        ∷ (codes "group_added", group_added)
        ∷ (codes "group_updated", group_updated)
        ∷ (codes "open_fee", RegistryTopic.open_fee)
        ∷ (codes "close_fee", RegistryTopic.close_fee)
        ∷ (codes "max_pos", max_pos)
        ∷ (codes "oi_add", oi_add)
        ∷ (codes "oi_sub", oi_sub)
        ∷ [])
      RegistryTopic.other

-- `pmTopics[topic]`, `vaultTopics[topic]`, `registryTopics[topic]`
abbrev pub is_pm_topic : Text → Bool
is_pm_topic t = elim (pm_topic t) [ PmTopic.other ↦ false | _ ↦ true ]

abbrev pub is_vault_topic : Text → Bool
is_vault_topic t = elim (vault_topic t) [ VaultTopic.other ↦ false | _ ↦ true ]

abbrev pub is_registry_topic : Text → Bool
is_registry_topic t = elim (registry_topic t) [ RegistryTopic.other ↦ false | _ ↦ true ]
