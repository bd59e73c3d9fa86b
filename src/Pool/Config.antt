-- ===== src/Pool/Config.antt =====
-- MysqlPool::loadConfigFile of Deli_time_server/Deli_time_server/mysqlPool.cc, on the lines of the file.
pub mod RoundTrip
pub mod Written
use Prim.Native.Nat.{min}
use vs2017code.Base.{
  ℕ, zero, suc, ◌+◌, ◌-◌, ◌*◌, ◌^◌, to_int32, to_word64, Bytes, codes, Bool, true, false, ◌&&◌,
  ◌||◌, List, [], ◌∷◌, leb, ◌==◌, Option, none, some, bytes_eq, if◌then◌else◌, ℤ, pos, negsuc,
}

-- The members of MysqlPool that the file sets; the numbers are `int`s, as `atoi` gives them.
pub record Config : Type 0 where
  pub host : Bytes
  pub user : Bytes
  pub password : Bytes
  pub database : Bytes
  pub init_count : ℤ
  pub max_count : ℤ
  pub max_idle_time : ℤ
  pub connection_timeout : ℤ

-- `isspace`.
abbrev pub is_blank : ℕ → Bool
is_blank c = c == 32 || (leb 9 c && leb c 13)

unfoldable pub skip_blanks : Bytes → Bytes
skip_blanks [] = []
skip_blanks (c ∷ line) = let rest = skip_blanks line in if is_blank c then rest else c ∷ line

-- The characters up to the first blank, and those from it on.
unfoldable pub split_word : Bytes → Bytes × Bytes
split_word [] = ([], [])
split_word (c ∷ line) =
    let rest = split_word line in if is_blank c then ([], c ∷ line) else (c ∷ rest.0, rest.1)

-- `iss >> text`: at the end of the line the text stays as it is.
unfoldable pub extract : Bytes → Bytes → Bytes × Bytes
unfolding skip_blanks split_word
extract text line = elim (skip_blanks line) [ [] ↦ (text, []) | c ∷ rest ↦ split_word (c ∷ rest) ]

-- The number that the digits up to the first other character spell, without a bound.
unfoldable pub digits_value : ℕ → Bytes → ℕ
digits_value n [] = n
digits_value n (c ∷ text) =
    let rest = digits_value (n * 10 + (c - 48)) text in if leb 48 c && leb c 57 then rest else n

unfoldable pub minus : ℕ → ℤ
minus zero = pos 0
minus (suc n) = negsuc n

-- What `strtol` of glibc makes of a sign, true for '-', and a number: it stops at the ends of `long`.
unfoldable pub long_value : Bool → ℕ → ℤ
unfolding minus
long_value false n = pos (min n (2 ^ 63 - 1))
long_value true n = minus (min n (2 ^ 63))

-- A `long` narrowed to an `int`.
unfoldable pub int_value : Bool → ℕ → ℤ
unfolding long_value
int_value is_negative n = to_int32 (to_word64 (long_value is_negative n))

-- `atoi` of glibc, `strtol` narrowed to an `int`: blanks, a sign, and digits up to the first other
-- character.
unfoldable pub atoi : Bytes → ℤ
unfolding skip_blanks digits_value int_value
atoi text = elim (skip_blanks text) [
  | [] ↦ pos 0
  | c ∷ rest ↦
      if c == 45
      then int_value true (digits_value 0 rest)
      else if c == 43
      then int_value false (digits_value 0 rest)
      else int_value false (digits_value 0 (c ∷ rest))
]

-- The chain of comparisons with the key; `none` is "wrong conf format".
unfoldable pub assign : Bytes → Bytes → Config → Option Config
assign key value config =
    if bytes_eq key (codes "ip")
    then some (record config { host = value })
    else if bytes_eq key (codes "username")
    then some (record config { user = value })
    else if bytes_eq key (codes "password")
    then some (record config { password = value })
    else if bytes_eq key (codes "dbname")
    then some (record config { database = value })
    else if bytes_eq key (codes "initSize")
    then some (record config { init_count = atoi value })
    else if bytes_eq key (codes "maxSize")
    then some (record config { max_count = atoi value })
    else if bytes_eq key (codes "maxIdleTime")
    then some (record config { max_idle_time = atoi value })
    else if bytes_eq key (codes "connectionTimeOut")
    then some (record config { connection_timeout = atoi value })
    else none

-- The loop; `key` and `value` keep what the last line left in them. The result is what loadConfigFile
-- returns, with the settings as they are then.
unfoldable pub load_lines : Bytes → Bytes → Config → List Bytes → Bool × Config
load_lines key value config [] = (true, config)
load_lines key value config (line ∷ lines) =
    let (key', rest) = extract key line in
    let (value', tail) = extract value rest in
    elim (assign key' value' config) [
      | none ↦ (false, config)
      | some config' ↦ load_lines key' value' config' lines
    ]

-- The file, or `none` when it cannot be opened.
unfoldable pub load_config_file : Config → Option (List Bytes) → Bool × Config
load_config_file config none = (false, config)
load_config_file config (some lines) = load_lines [] [] config lines
