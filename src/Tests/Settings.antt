-- ===== src/Tests/Settings.antt =====
-- The configuration of the connection pool at concrete files.
use vs2017code.Base.{◌≡◌, refl, arith, codes, true, false, some, [], ◌∷◌, List, map, pos}
use vs2017code.Pool.Config.{
  Config, skip_blanks, digits_value, int_value, long_value, atoi, load_config_file,
}
use vs2017code.Pool.Config.Written.{
  Decimal, magnitude, Setting, host_is, max_count_is, setting_line, load_config_file_lem,
}

abbrev unset : Config
unset = record {
  host = [];
  user = [];
  password = [];
  database = [];
  init_count = pos 0;
  max_count = pos 0;
  max_idle_time = pos 0;
  connection_timeout = pos 0;
}

number : atoi (codes " 1024x") ≡ pos 1024
unfolding atoi skip_blanks digits_value int_value long_value
number = refl

-- 2^32 + 1 is narrowed.
narrowed : atoi (codes "4294967297") ≡ pos 1
unfolding atoi skip_blanks digits_value int_value long_value
narrowed = refl

abbrev sixteen : Decimal
sixteen = record { is_negative = false; digits = 1 ∷ 6 ∷ [] }

abbrev written : List Setting
written = host_is (codes "db") ∷ max_count_is sixteen ∷ []

load_config_file_lem_example :
    load_config_file unset (some (map setting_line written))
    ≡ (true, record unset { host = codes "db"; max_count = pos 16 })
unfolding magnitude
load_config_file_lem_example = load_config_file_lem unset written (
  ((λ e. cc), (refl, (refl, tt))),
  (
    record {
      some_digits = λ e. cc;
      all_digits = ((omega arith), ((omega arith), tt));
      in_bounds = omega arith;
    },
    tt,
  ),
)
