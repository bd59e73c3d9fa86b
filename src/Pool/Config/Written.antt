-- ===== src/Pool/Config/Written.antt =====
-- A configuration file with texts and decimal numbers, and the members that it sets.
use vs2017code.Base.{
  ℕ, zero, suc, ◌+◌, ◌-◌, ◌*◌, ◌^◌, ◌<◌, ◌≡◌, ◌≢◌, refl, ap, ◌∙◌, arith, Bytes, Bool, true, false,
  ◌&&◌, if◌then◌else◌, List, [], ◌∷◌, ◌==◌, leb, length, Bool-cases, inl, inr, map, some, All, ℤ,
  pos,
}
use native.Mathlib.Nat.{pow-suc}
use vs2017code.Pool.Config.{
  Config, is_blank, skip_blanks, digits_value, minus, long_value, int_value, atoi, load_config_file,
}
use vs2017code.Pool.Config.RoundTrip.{
  Key, host, user, password, database, init_count, max_count, max_idle_time, connection_timeout,
  set, set_all, line_of, IsWord, load_config_file-line_of,
}

-- A number as it is written: its sign, true for '-', and its digits.
pub record Decimal : Type 0 where
  pub is_negative : Bool
  pub digits : List ℕ

-- Each digit counts for a power of ten by its place.
unfoldable pub magnitude : List ℕ → ℕ
magnitude [] = 0
magnitude (d ∷ digits) = d * 10 ^ length digits + magnitude digits

abbrev pub decimal_value : Decimal → ℤ
decimal_value number =
    if number.is_negative then minus (magnitude number.digits) else pos (magnitude number.digits)

abbrev pub digits_text : List ℕ → Bytes
digits_text digits = map (λ d. 48 + d) digits

abbrev pub decimal_text : Decimal → Bytes
decimal_text number =
    if number.is_negative then 45 ∷ digits_text number.digits else digits_text number.digits

pub record IsDecimal (number : Decimal) : Type 0 where
  pub some_digits : number.digits ≢ []
  pub all_digits : All (λ d. d < 10) number.digits
  pub in_bounds : magnitude number.digits < 2 ^ 31

place_value :
    (n d power rest : ℕ) → (n * 10 + d) * power + rest ≡ n * (power * 10) + (d * power + rest)
place_value n d power rest = omega arith

digits_value-digits_text :
    (n : ℕ) (digits : List ℕ)
    → All (λ d. d < 10) digits
    → digits_value n (digits_text digits) ≡ n * 10 ^ length digits + magnitude digits
unfolding digits_value magnitude
digits_value-digits_text n [] h = omega arith
digits_value-digits_text n (d ∷ digits) h =
    let rest : digits_value (n * 10 + d) (digits_text digits)
        ≡ (n * 10 + d) * 10 ^ length digits + magnitude digits =
      digits_value-digits_text (n * 10 + d) digits h.1 in
    let same : 48 + d - 48 ≡ d = omega arith in
    let is_digit : (leb 48 (48 + d) && leb (48 + d) 57) ≡ true = ground (arith, h.0) in
    rw (is_digit, same, rest, pow-suc 10 (length digits))
      (place_value n d (10 ^ length digits) (magnitude digits))

int_value_small :
    (is_negative : Bool) (n : ℕ)
    → n < 2 ^ 31
    → int_value is_negative n ≡ (if is_negative then minus n else pos n)
unfolding int_value long_value minus
int_value_small false n h = ground (arith)
int_value_small true zero h = refl
int_value_small true (suc n) h = ground (arith)

spelled :
    (digits : List ℕ)
    → All (λ d. d < 10) digits
    → digits_value 0 (digits_text digits) ≡ magnitude digits
spelled digits h = digits_value-digits_text 0 digits h ∙ omega arith

atoi_signed :
    (digits : List ℕ)
    → All (λ d. d < 10) digits
    → magnitude digits < 2 ^ 31
    → atoi (45 ∷ digits_text digits) ≡ minus (magnitude digits)
unfolding atoi skip_blanks
atoi_signed digits h small =
    ap (int_value true) (spelled digits h) ∙ int_value_small true (magnitude digits) small

atoi_unsigned :
    (digits : List ℕ)
    → digits ≢ []
    → All (λ d. d < 10) digits
    → magnitude digits < 2 ^ 31
    → atoi (digits_text digits) ≡ pos (magnitude digits)
unfolding atoi skip_blanks
atoi_unsigned [] some_digits h small = absurd (some_digits refl)
atoi_unsigned (d ∷ digits) some_digits h small =
    let not_blank : is_blank (48 + d) ≡ false = ground (arith, h.0) in
    let not_minus : (48 + d == 45) ≡ false = ground arith in
    let not_plus : (48 + d == 43) ≡ false = ground arith in
    rw (atoi, skip_blanks, not_blank, not_minus, not_plus)
      (ap (int_value false) (spelled (d ∷ digits) h)
        ∙ int_value_small false (magnitude (d ∷ digits)) small)

atoi-decimal_text :
    (number : Decimal) → IsDecimal number → atoi (decimal_text number) ≡ decimal_value number
atoi-decimal_text number h = elim (Bool-cases number.is_negative) [
  | inl negative ↦ rw (negative) (atoi_signed number.digits h.all_digits h.in_bounds)
  | inr positive ↦
      rw (positive) (atoi_unsigned number.digits h.some_digits h.all_digits h.in_bounds)
]

digits_text-All :
    (digits : List ℕ)
    → All (λ d. d < 10) digits
    → All (λ c. is_blank c ≡ false) (digits_text digits)
digits_text-All [] h = tt
digits_text-All (d ∷ digits) h = (ground (arith, h.0), digits_text-All digits h.1)

digits_text_nonempty : (digits : List ℕ) → digits ≢ [] → digits_text digits ≢ []
digits_text_nonempty [] h = absurd (h refl)
digits_text_nonempty (d ∷ digits) h = λ e. cc

decimal_text-IsWord : (number : Decimal) → IsDecimal number → IsWord (decimal_text number)
decimal_text-IsWord number h = elim (Bool-cases number.is_negative) [
  | inl negative ↦ rw (negative) ((λ e. cc), (refl, digits_text-All number.digits h.all_digits))
  | inr positive ↦
      rw (positive) (
        digits_text_nonempty number.digits h.some_digits,
        digits_text-All number.digits h.all_digits,
      )
]

-- A line of the file: a text or a number for one of the members.
pub data Setting : Type 0 where
  host_is user_is password_is database_is : Bytes → Setting
  init_count_is max_count_is max_idle_time_is connection_timeout_is : Decimal → Setting

abbrev entry_of : Setting → Key × Bytes
entry_of (host_is text) = (host, text)
entry_of (user_is text) = (user, text)
entry_of (password_is text) = (password, text)
entry_of (database_is text) = (database, text)
entry_of (init_count_is number) = (init_count, decimal_text number)
entry_of (max_count_is number) = (max_count, decimal_text number)
entry_of (max_idle_time_is number) = (max_idle_time, decimal_text number)
entry_of (connection_timeout_is number) = (connection_timeout, decimal_text number)

-- The key, a blank, and the text or the number in decimal.
abbrev pub setting_line : Setting → Bytes
setting_line setting = line_of (entry_of setting)

abbrev pub apply_setting : Setting → Config → Config
apply_setting (host_is text) config = record config { host = text }
apply_setting (user_is text) config = record config { user = text }
apply_setting (password_is text) config = record config { password = text }
apply_setting (database_is text) config = record config { database = text }
apply_setting (init_count_is number) config = record config { init_count = decimal_value number }
apply_setting (max_count_is number) config = record config { max_count = decimal_value number }
apply_setting (max_idle_time_is number) config = record config {
  max_idle_time = decimal_value number;
}
apply_setting (connection_timeout_is number) config = record config {
  connection_timeout = decimal_value number;
}

abbrev pub apply_all : List Setting → Config → Config
apply_all [] config = config
apply_all (setting ∷ settings) config = apply_all settings (apply_setting setting config)

-- A text is not empty and has no blank, and a number is below 2^31 in magnitude.
abbrev pub IsWritten : Setting → Type 0
IsWritten (host_is text) = IsWord text
IsWritten (user_is text) = IsWord text
IsWritten (password_is text) = IsWord text
IsWritten (database_is text) = IsWord text
IsWritten (init_count_is number) = IsDecimal number
IsWritten (max_count_is number) = IsDecimal number
IsWritten (max_idle_time_is number) = IsDecimal number
IsWritten (connection_timeout_is number) = IsDecimal number

entry_of-IsWord : (setting : Setting) → IsWritten setting → IsWord (entry_of setting).1
entry_of-IsWord (host_is text) h = h
entry_of-IsWord (user_is text) h = h
entry_of-IsWord (password_is text) h = h
entry_of-IsWord (database_is text) h = h
entry_of-IsWord (init_count_is number) h = decimal_text-IsWord number h
entry_of-IsWord (max_count_is number) h = decimal_text-IsWord number h
entry_of-IsWord (max_idle_time_is number) h = decimal_text-IsWord number h
entry_of-IsWord (connection_timeout_is number) h = decimal_text-IsWord number h

set-entry_of :
    (setting : Setting) (config : Config)
    → IsWritten setting
    → set (entry_of setting) config ≡ apply_setting setting config
set-entry_of (host_is text) config h = refl
set-entry_of (user_is text) config h = refl
set-entry_of (password_is text) config h = refl
set-entry_of (database_is text) config h = refl
set-entry_of (init_count_is number) config h =
    ap (λ n. record config { init_count = n }) (atoi-decimal_text number h)
set-entry_of (max_count_is number) config h =
    ap (λ n. record config { max_count = n }) (atoi-decimal_text number h)
set-entry_of (max_idle_time_is number) config h =
    ap (λ n. record config { max_idle_time = n }) (atoi-decimal_text number h)
set-entry_of (connection_timeout_is number) config h =
    ap (λ n. record config { connection_timeout = n }) (atoi-decimal_text number h)

set_all-entry_of :
    (settings : List Setting) (config : Config)
    → All IsWritten settings
    → set_all (map entry_of settings) config ≡ apply_all settings config
set_all-entry_of [] config h = refl
set_all-entry_of (setting ∷ settings) config h =
    ap (set_all (map entry_of settings)) (set-entry_of setting config h.0)
    ∙ set_all-entry_of settings (apply_setting setting config) h.1

entries-IsWord :
    (settings : List Setting)
    → All IsWritten settings
    → All (λ (e : Key × Bytes). IsWord e.1) (map entry_of settings)
entries-IsWord [] h = tt
entries-IsWord (setting ∷ settings) h = (entry_of-IsWord setting h.0, entries-IsWord settings h.1)

map-setting_line :
    (settings : List Setting) → map setting_line settings ≡ map line_of (map entry_of settings)
map-setting_line [] = refl
map-setting_line (setting ∷ settings) = ap (◌∷◌ (setting_line setting)) (map-setting_line settings)

-- A file each of whose lines is one of the eight keys, a blank, and a value, a text without blanks or
-- a decimal number of a magnitude below 2^31 with or without '-', is read to its end, and sets the
-- members that its keys name, in order, to these texts and numbers.
pub load_config_file_lem :
    (config : Config) (settings : List Setting)
    → All IsWritten settings
    → load_config_file config (some (map setting_line settings)) ≡ (true, apply_all settings config)
load_config_file_lem config settings h =
    ap (λ lines. load_config_file config (some lines)) (map-setting_line settings)
    ∙ load_config_file-line_of config (map entry_of settings) (entries-IsWord settings h)
    ∙ ap (λ c. (true, c)) (set_all-entry_of settings config h)
