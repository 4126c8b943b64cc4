-- ===== src/Events/Decode.antt =====
-- `Decode` of internal/events/decode.go: from a raw contract event to the typed one.
pub mod Pm
pub mod Other
pub mod Values
pub mod Fields
pub use Pm.{decode_pm}
pub use Other.{decode_vault, decode_registry}
use lumen_liquid_backend.Base.{
  ℕ, Bool, true, false, ◌&&◌, ◌||◌, Option, none, some, List, [], ◌∷◌, if◌then◌else◌, ◌==◌, text_eq,
}
use lumen_liquid_backend.Base.Text.{Text}
use lumen_liquid_backend.Soroban.ScVal.{Codec, Value, string, ScVal, native}
use lumen_liquid_backend.Events.{
  Event, empty_event, Source, pm, vault, registry, unknown, pm_topic, vault_topic, registry_topic,
  is_pm_topic, is_vault_topic, is_registry_topic,
}

-- soroban.EventResult, the fields that `Decode` reads.
pub record EventResult : Type 0 where
  pub ledger : ℕ
  pub ledger_closed_at : Text
  pub contract_id : Text
  pub topic : List Text
  pub value : Text
  pub tx_hash : Text

-- The configured contract ids; the empty text skips a route.
pub record Contracts : Type 0 where
  pub pm_id : Text
  pub vault_id : Text
  pub registry_id : Text

abbrev is_empty : Text → Bool
is_empty [] = true
is_empty (c ∷ s) = false

unfoldable pub classify : Contracts → Text → Text → Source
classify c contract_id topic =
    if contract_id == c.pm_id || (is_empty c.pm_id && is_pm_topic topic)
    then pm
    else if contract_id == c.vault_id || (is_empty c.vault_id && is_vault_topic topic)
    then vault
    else if contract_id == c.registry_id || (is_empty c.registry_id && is_registry_topic topic)
    then registry
    else unknown

-- The typed fields, by the source.
unfoldable pub decode_source : Source → Text → List Value → Value → Event → Event
decode_source pm t topics d e = decode_pm (pm_topic t) topics d e
decode_source vault t topics d e = decode_vault (vault_topic t) topics d e
decode_source registry t topics d e = decode_registry (registry_topic t) topics d e
decode_source unknown t topics d e = e

module _ (x : Codec) where
  -- `DecodeScValB64`, then `Native`
  unfoldable pub decode_native : Text → Option Value
  decode_native b64 = elim (x.decode_b64 b64) [ none ↦ none | some v ↦ native x v ]

  unfoldable pub decode_topics : List Text → Option (List Value)
  unfolding decode_native
  decode_topics [] = some []
  decode_topics (t ∷ ts) = elim (decode_native t) [
    | none ↦ none
    | some v ↦ elim (decode_topics ts) [ none ↦ none | some vs ↦ some (v ∷ vs) ]
  ]

  -- `topics[0].(string)`
  abbrev first_symbol : List Value → Option Text
  first_symbol (string s ∷ rest) = some s
  first_symbol (v ∷ rest) = none
  first_symbol [] = none

  -- After the topics: classify, read the value, fill the typed fields.
  unfoldable pub decode_body : EventResult → Contracts → List Value → Text → Option Event
  unfolding classify decode_source decode_native
  decode_body r c topics t =
      let source = classify c r.contract_id t in
      elim (decode_native r.value) [
        | none ↦ none
        | some d ↦ some (
            decode_source source t topics d (record empty_event {
              contract_id = r.contract_id;
              tx_hash = r.tx_hash;
              ledger = r.ledger;
              occurred_at = r.ledger_closed_at;
              raw_topics = topics;
              topic = t;
              source = source;
              raw_data = d;
            }))
      ]

  -- `Decode`; `none` is an error.
  unfoldable pub decode : EventResult → Contracts → Option Event
  unfolding decode_topics decode_body
  decode r c = elim (decode_topics r.topic) [
    | none ↦ none
    | some topics ↦ elim (first_symbol topics) [ none ↦ none | some t ↦ decode_body r c topics t ]
  ]
