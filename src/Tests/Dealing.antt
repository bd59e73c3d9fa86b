-- ===== src/Tests/Dealing.antt =====
-- Rounds of dealMessage with whole numbers as prices, and the packets of their results.
use vs2017code.Base.{
  ℕ, zero, suc, ◌+◌, ◌-◌, ◌*◌, ◌/◌, ◌≤◌, ◌<◌, ◌≡◌, refl, arith, Bytes, codes, c_string, Bool, true,
  false, Option, [], ◌∷◌, ◌++◌, none, some, ◌==◌, bytes_eq, length, ℤ, pos, negsuc,
}
use vs2017code.Framing.Delimiter.{on_message, message_loop, delimiter_position, find, starts_with}
use vs2017code.Framing.Header.{overwrite, strcpy, field_text}
use vs2017code.Framing.LengthHeader.{host_to_network32}
use vs2017code.Pool.Config.{digits_value, int_value, long_value, minus, skip_blanks}
use vs2017code.Quotes.Ticks.{Ticks, take_tick, drop_front, erase}
use vs2017code.Quotes.TradeTime.{
  broken_time, scan_ints, scan_int, scan_digits, scan_literal, drop_digits, subtract,
}
use vs2017code.Quotes.Window.{window}
use vs2017code.Quotes.Packet.{Quote, zeros, send, send_login, fill_login, send_quote}
use vs2017code.Quotes.Server.{is_login}
use vs2017code.Quotes.Client.{on_connection}
use vs2017code.Quotes.Packet.Layout.{members, send_quote_layout}
use vs2017code.Quotes.Deal.{
  Numbers, done, Tick, strtok_all, split_tokens, tick_fields, read_tick, queue_of, deal_all,
  deal_round, trades,
}
use vs2017code.Quotes.Deal.Windows.{deal_all-windows}
use vs2017code.Quotes.Deal.Results.{HasNoBlank, IsPlain, quote_of, deal_round_result}

-- A number as that many strokes.
abbrev strokes : ℕ → Bytes
strokes zero = []
strokes (suc n) = 49 ∷ strokes n

abbrev natural : ℤ → ℕ
natural (pos n) = n
natural (negsuc n) = 0

abbrev counting : Numbers
counting = record {
  Price = ℕ;
  stod = λ text. some (digits_value 0 text);
  minus = λ a b. a - b;
  divided_by = λ a b. a / b;
  times = λ a b. a * b;
  hundred = 100;
  zero_price = 0;
  is_zero = λ price. price == 0;
  fixed_text = strokes;
  stream_value = length;
  stream_text = strokes;
  mktime = λ time. natural time.minute * 60 + natural time.second;
}

strokes-HasNoBlank : (n : ℕ) → HasNoBlank (strokes n)
strokes-HasNoBlank zero = tt
strokes-HasNoBlank (suc n) = (refl, strokes-HasNoBlank n)

-- A tick of cotton at a time.
abbrev cotton : ℕ → ℕ → Tick counting
cotton time price = record {
  commodity = codes "CF";
  contract_no = codes "2101";
  exchange = codes "ZCE";
  time = time;
  price = price;
}

abbrev text : Bytes
text = codes "1|CF|2101|ZCE|2020-12-01 09:01:30|5|6|7|8|9|3"

abbrev pending : Ticks
pending = record { list = text ∷ []; set = text ∷ [] }

abbrev taken : Ticks
taken = record { list = []; set = [] }

cotton-IsPlain : (time price : ℕ) → IsPlain counting (cotton time price)
cotton-IsPlain time price = record {
  plain_commodity = (refl, (refl, tt));
  plain_contract_no = (refl, (refl, (refl, (refl, tt))));
  plain_exchange = (refl, (refl, (refl, tt)));
}

read : read_tick counting text ≡ done (cotton 90 3)
unfolding read_tick tick_fields strtok_all split_tokens c_string broken_time scan_ints scan_int
    scan_digits scan_literal drop_digits subtract skip_blanks digits_value int_value long_value
    minus
read = refl

deal_round_result_example :
    (deal_round counting pending (deal_all counting (cotton 40 1 ∷ []))
      ≡ done (taken, deal_all counting (cotton 90 3 ∷ cotton 40 1 ∷ [])))
    × ((deal_all counting (cotton 90 3 ∷ cotton 40 1 ∷ [])).results
        ≡ (deal_all counting (cotton 40 1 ∷ [])).results
          ++ quote_of counting (cotton 90 3) (cotton 40 1 ∷ []) ∷ [])
unfolding take_tick drop_front erase bytes_eq trades
deal_round_result_example =
    deal_round_result counting strokes-HasNoBlank pending taken text (cotton 90 3)
      (cotton 40 1 ∷ []) refl read (cotton-IsPlain 90 3, (cotton-IsPlain 40 1, tt))
      ((omega arith), tt)

deal_all-windows_example :
    (queue_of counting (codes "CF2101ZCE1") (deal_all counting (cotton 90 3 ∷ [])).queues
      ≡ window 60 (trades counting (codes "CF2101ZCE") (cotton 90 3 ∷ [])))
    × ((queue_of counting (codes "CF2101ZCE3") (deal_all counting (cotton 90 3 ∷ [])).queues
          ≡ window 180 (trades counting (codes "CF2101ZCE") (cotton 90 3 ∷ [])))
        × (queue_of counting (codes "CF2101ZCE5") (deal_all counting (cotton 90 3 ∷ [])).queues
            ≡ window 300 (trades counting (codes "CF2101ZCE") (cotton 90 3 ∷ []))))
deal_all-windows_example = deal_all-windows counting (codes "CF2101ZCE") (cotton 90 3 ∷ [])

abbrev quote : Quote
quote = record {
  commodity = codes "CF";
  contract_no = codes "2101";
  exchange = codes "ZCE";
  res_str = codes "CF|2101|ZCE|2|2|2";
}

send_quote_layout_example :
    (length (codes "ZCE") ≤ 8
      → send_quote quote
        ≡ some (
            6 ∷ zeros 4
            ++ (host_to_network32 (length (members quote ++ quote.res_str))
                ++ (members quote ++ quote.res_str))))
    × (8 < length (codes "ZCE") → send_quote quote ≡ none)
unfolding bytes_eq
send_quote_layout_example = send_quote_layout quote refl (omega arith) (omega arith)

-- Whether the server takes the first message of some bytes for a login.
logs_in : Option Bytes → Bool
logs_in none = false
logs_in (some bytes) = elim (on_message bytes).messages [
  | [] ↦ false
  | message ∷ messages ↦ is_login message
]

-- What a client sends when its connection is up is a login to the server.
client_logs_in : logs_in (on_connection 7 true).0 ≡ true
unfolding logs_in on_connection send send_login fill_login strcpy overwrite c_string bytes_eq
    on_message message_loop delimiter_position find starts_with is_login field_text
client_logs_in = refl
