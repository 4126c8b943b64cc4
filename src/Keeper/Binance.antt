-- ===== src/Keeper/Binance.antt =====
-- internal/keeper/binance.go: the trade stream of Binance as price ticks. The socket appears as the
-- sessions it gives, and encoding/json as the parameter `Json`; logging is left out.
pub mod Digits
pub mod Price
pub mod Backoff
use lumen_liquid_backend.Base.{
  ℕ, ◌+◌, ◌-◌, ◌*◌, Bool, true, false, not, ◌&&◌, ◌||◌, Option, none, some, List, [], ◌∷◌, ◌++◌,
  if◌then◌else◌, ◌==◌, text_eq, nat_beq, ltb, length, take, replicate,
}
use lumen_liquid_backend.Base.Int.{ℤ, pos, leb_ℤ}
use lumen_liquid_backend.Base.Text.{Text, codes, parse_ℤ}
use lumen_liquid_backend.Base.Strings.{trim_space, to_upper, to_lower, cut, split_on, atoi}
use lumen_liquid_backend.Base.Assoc.{Map, lookup, insert}

pub record PriceTick : Type 0 where
  pub pair_index : ℤ
  pub price : ℤ
  pub symbol : Text

-- `out` is the buffered channel, the oldest tick first.
pub record BinanceClient : Type 0 where
  pub url : Text
  pub symbols : List Text
  pub symbol_to_pair : Map Text ℤ
  pub out : List PriceTick

pub record AggTradeMsg : Type 0 where
  pub event : Text
  pub symbol : Text
  pub price : Text

pub record StreamWrapper : Type 0 where
  pub stream : Text
  pub data_part : Text

-- `json.Unmarshal` into the two message types; `none` is its error.
pub record Json : Type 0 where
  pub stream_wrapper : Text → Option StreamWrapper
  pub agg_trade_msg : Text → Option AggTradeMsg

abbrev pub capacity : ℕ
capacity = 1024

-- A symbol and the pair it stands for; 58 is the colon, 64 the at sign.
abbrev add_symbol : Text → Option ℤ → BinanceClient → BinanceClient
add_symbol symbol none b = b
add_symbol symbol (some i) b = record b {
  symbol_to_pair = insert symbol i b.symbol_to_pair;
  symbols = b.symbols ++ (to_lower symbol ++ codes "@aggTrade") ∷ [];
}

unfoldable pub add_entry : Text → BinanceClient → BinanceClient
add_entry entry b =
    let (before, after) = cut 58 (trim_space entry) in
    elim after [
      | none ↦ b
      | some rest ↦ add_symbol (to_upper (trim_space before)) (atoi (trim_space rest)) b
    ]

unfoldable pub add_entries : List Text → BinanceClient → BinanceClient
add_entries [] b = b
add_entries (entry ∷ entries) b = add_entries entries (add_entry entry b)

unfoldable pub new_binance_client : Text → Text → BinanceClient
new_binance_client ws_url pair_symbol_map =
    add_entries (split_on 44 pair_symbol_map)
      (record { url = ws_url; symbols = []; symbol_to_pair = []; out = [] })

abbrev pub text_or_empty : Option Text → Text
text_or_empty none = []
text_or_empty (some t) = t

-- `none` is the nil price: no number, or not above zero.
abbrev pub positive : Option ℤ → Option ℤ
positive none = none
positive (some z) = if leb_ℤ z (pos 0) then none else some z

-- The digits before the point, at most 14 after it, and zeros up to 14.
unfoldable pub scaled_digits : Text → Option Text → Text
scaled_digits int_part frac =
    let frac_part = take 14 (text_or_empty frac) in
    int_part ++ (frac_part ++ replicate (14 - length frac_part) 48)

unfoldable pub parse_price_to_scale : Text → Option ℤ
parse_price_to_scale s =
    let t = trim_space s in
    let (int_part, frac) = cut 46 t in
    if t == [] then none else positive (parse_ℤ (scaled_digits int_part frac))

-- The non-blocking send: a tick that finds the channel full is dropped.
unfoldable pub push_tick : PriceTick → BinanceClient → BinanceClient
push_tick tick b = if ltb (length b.out) capacity then record b { out = b.out ++ tick ∷ [] } else b

abbrev priced : Text → ℤ → Option ℤ → BinanceClient → BinanceClient
priced symbol pair none b = b
priced symbol pair (some price) b =
    push_tick (record { pair_index = pair; price = price; symbol = symbol }) b

abbrev paired : AggTradeMsg → Option ℤ → BinanceClient → BinanceClient
paired msg none b = b
paired msg (some pair) b = priced msg.symbol pair (parse_price_to_scale msg.price) b

abbrev traded : Option AggTradeMsg → BinanceClient → BinanceClient
traded none b = b
traded (some msg) b =
    if msg.event == codes "aggTrade" then paired msg (lookup msg.symbol b.symbol_to_pair) b else b

-- The inner message of an envelope, or the message itself.
abbrev pub unwrapped : Text → Option StreamWrapper → Text
unwrapped message none = message
unwrapped message (some w) = if w.stream == [] then message else w.data_part

-- One second, in the nanoseconds of `time.Duration`.
abbrev pub second : ℕ
second = 1_000_000_000

unfoldable pub next_backoff : ℕ → ℕ
next_backoff current =
    if nat_beq current 0
    then second
    else if ltb (30 * second) (current * 2)
    then 30 * second
    else current * 2

-- What one dial gives: whether it and the subscription succeed, and the messages read before the
-- read fails.
pub record Session : Type 0 where
  pub dialed : Bool
  pub subscribed : Bool
  pub messages : List Text

module _ (json : Json) where
  unfoldable pub handle_message : Text → BinanceClient → BinanceClient
  handle_message message b =
      traded (json.agg_trade_msg (unwrapped message (json.stream_wrapper message))) b

  unfoldable pub handle_messages : List Text → BinanceClient → BinanceClient
  handle_messages [] b = b
  handle_messages (m ∷ ms) b = handle_messages ms (handle_message m b)

  -- `true` is an error: the read loop has no other end.
  unfoldable pub connect : Session → BinanceClient → Bool × BinanceClient
  connect session b =
      if not session.dialed
      then (true, b)
      else if not session.subscribed
      then (true, b)
      else (true, handle_messages session.messages b)

  -- One round of `Run`, with the wait before the next one.
  unfoldable pub run_once : Session → BinanceClient → ℕ → BinanceClient × ℕ
  run_once session b backoff =
      let (failed, b') = connect session b in (b', if failed then next_backoff backoff else 0)

  unfoldable pub run : List Session → BinanceClient → ℕ → BinanceClient × ℕ
  run [] b backoff = (b, backoff)
  run (session ∷ sessions) b backoff =
      let (b', wait) = run_once session b backoff in run sessions b' wait
