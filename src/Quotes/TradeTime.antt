-- ===== src/Quotes/TradeTime.antt =====
-- str_to_time_t of quote_client/quote_client/utils.cc: `sscanf` with "%d-%d-%d %d:%d:%d" into a zeroed
-- `tm`, with the numbers of glibc's `strtol`; `mktime` is a parameter of the callers.
use vs2017code.Base.{
  ℕ, ◌+◌, ◌-◌, ◌^◌, ltb, Bytes, Bool, true, false, ◌&&◌, List, [], ◌∷◌, Option, none, some, ◌==◌,
  leb, get_or, if◌then◌else◌, ℤ, pos, negsuc,
}
use vs2017code.Base.Chain.{◌>>=◌}
use vs2017code.Pool.Config.{skip_blanks, digits_value, int_value}

is_digit : ℕ → Bool
is_digit c = leb 48 c && leb c 57

unfoldable pub drop_digits : Bytes → Bytes
unfolding is_digit
drop_digits [] = []
drop_digits (c ∷ text) = let rest = drop_digits text in if is_digit c then rest else c ∷ text

-- The digits of a "%d" behind its sign; `none` when there is no digit.
unfoldable pub scan_digits : Bool → Bytes → Option (ℤ × Bytes)
unfolding is_digit drop_digits int_value
scan_digits is_negative [] = none
scan_digits is_negative (c ∷ text) =
    if is_digit c
    then some (int_value is_negative (digits_value 0 (c ∷ text)), drop_digits (c ∷ text))
    else none

-- "%d": blanks, a sign, and digits.
unfoldable pub scan_int : Bytes → Option (ℤ × Bytes)
unfolding scan_digits
scan_int text = elim (skip_blanks text) [
  | [] ↦ none
  | c ∷ rest ↦
      if c == 45
      then scan_digits true rest
      else if c == 43
      then scan_digits false rest
      else scan_digits false (c ∷ rest)
]

-- A blank of the format takes any blanks, another character itself.
unfoldable pub scan_literal : ℕ → Bytes → Option Bytes
scan_literal c text =
    if c == 32
    then some (skip_blanks text)
    else elim text [ [] ↦ none | d ∷ rest ↦ if c == d then some rest else none ]

-- The numbers that are read before the first mismatch, with these characters between them.
unfoldable pub scan_ints : List ℕ → Bytes → List ℤ
unfolding scan_int scan_literal
scan_ints [] text = elim (scan_int text) [ none ↦ [] | some (n, rest) ↦ n ∷ [] ]
scan_ints (c ∷ literals) text = elim (scan_int text) [
  | none ↦ []
  | some (n, rest) ↦
      n ∷ (elim (scan_literal c rest) [ none ↦ [] | some behind ↦ scan_ints literals behind ])
]

-- A `tm`, with `tm_year` counted from 1900 and `tm_mon` from 0.
pub record BrokenTime : Type 0 where
  pub year : ℤ
  pub month : ℤ
  pub day : ℤ
  pub hour : ℤ
  pub minute : ℤ
  pub second : ℤ

-- `a - n` of an `int`; `none` is an overflow.
unfoldable pub subtract : ℤ → ℕ → Option ℤ
subtract (pos a) n = some (if leb n a then pos (a - n) else negsuc (n - a - 1))
subtract (negsuc a) n = if ltb (a + n) (2 ^ 31) then some (negsuc (a + n)) else none

-- What str_to_time_t passes to `mktime`.
unfoldable pub broken_time : Bytes → Option BrokenTime
unfolding scan_ints subtract
broken_time text =
    let numbers = scan_ints (45 ∷ 45 ∷ 32 ∷ 58 ∷ 58 ∷ []) text in
    do
      year ← subtract (get_or numbers 0 (pos 0)) 1900
      month ← subtract (get_or numbers 1 (pos 0)) 1
      some (record {
        year = year;
        month = month;
        day = get_or numbers 2 (pos 0);
        hour = get_or numbers 3 (pos 0);
        minute = get_or numbers 4 (pos 0);
        second = get_or numbers 5 (pos 0);
      })
