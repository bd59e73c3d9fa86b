-- ===== src/Pool/Config/RoundTrip.antt =====
-- What a configuration file that is written line by line sets.
use vs2017code.Base.{
  ◌≡◌, ◌≢◌, refl, ◌∙◌, arith, Bytes, codes, true, false, List, [], ◌∷◌, ◌++◌, some, map, All,
  bytes_eq,
}
use vs2017code.Pool.Config.{
  Config, is_blank, skip_blanks, split_word, extract, atoi, assign, load_lines, load_config_file,
}

pub data Key : Type 0 where
  host user password database init_count max_count max_idle_time connection_timeout : Key

-- The words of the file, and what each of them sets.
abbrev pub key_text : Key → Bytes
key_text host = codes "ip"
key_text user = codes "username"
key_text password = codes "password"
key_text database = codes "dbname"
key_text init_count = codes "initSize"
key_text max_count = codes "maxSize"
key_text max_idle_time = codes "maxIdleTime"
key_text connection_timeout = codes "connectionTimeOut"

abbrev pub set : Key × Bytes → Config → Config
set (host, value) config = record config { host = value }
set (user, value) config = record config { user = value }
set (password, value) config = record config { password = value }
set (database, value) config = record config { database = value }
set (init_count, value) config = record config { init_count = atoi value }
set (max_count, value) config = record config { max_count = atoi value }
set (max_idle_time, value) config = record config { max_idle_time = atoi value }
set (connection_timeout, value) config = record config { connection_timeout = atoi value }

abbrev pub set_all : List (Key × Bytes) → Config → Config
set_all [] config = config
set_all (entry ∷ entries) config = set_all entries (set entry config)

abbrev pub line_of : Key × Bytes → Bytes
line_of entry = key_text entry.0 ++ 32 ∷ entry.1

-- Not empty, and without blanks.
abbrev pub IsWord : Bytes → Type 0
IsWord text = (text ≢ []) × All (λ c. is_blank c ≡ false) text

split_word-All : (word : Bytes) → All (λ c. is_blank c ≡ false) word → split_word word ≡ (word, [])
unfolding split_word
split_word-All [] h = refl
split_word-All (c ∷ word) h = ground (arith, split_word-All word h.1)

pub extract_word : (old word : Bytes) → IsWord word → extract old word ≡ (word, [])
unfolding skip_blanks extract
extract_word old [] h = absurd (h.0 refl)
extract_word old (c ∷ word) h =
    let blank : is_blank c ≡ false = h.1.0 in
    let kept : skip_blanks (c ∷ word) ≡ c ∷ word = rw (skip_blanks, blank) refl in
    rw (extract, kept) (split_word-All (c ∷ word) h.1)

extract_key_only : (old : Bytes) (key : Key) → extract old (key_text key) ≡ (key_text key, [])
unfolding extract skip_blanks split_word
extract_key_only old host = refl
extract_key_only old user = refl
extract_key_only old password = refl
extract_key_only old database = refl
extract_key_only old init_count = refl
extract_key_only old max_count = refl
extract_key_only old max_idle_time = refl
extract_key_only old connection_timeout = refl

extract_nothing : (old : Bytes) → extract old [] ≡ (old, [])
unfolding extract skip_blanks
extract_nothing old = refl

extract_key :
    (old : Bytes) (key : Key) (value : Bytes)
    → extract old (line_of (key, value)) ≡ (key_text key, 32 ∷ value)
unfolding extract skip_blanks split_word
extract_key old host value = refl
extract_key old user value = refl
extract_key old password value = refl
extract_key old database value = refl
extract_key old init_count value = refl
extract_key old max_count value = refl
extract_key old max_idle_time value = refl
extract_key old connection_timeout value = refl

extract_value : (old value : Bytes) → IsWord value → extract old (32 ∷ value) ≡ (value, [])
extract_value old value h = unfold extract skip_blanks in extract_word old value h

assign_key :
    (key : Key) (value : Bytes) (config : Config)
    → assign (key_text key) value config ≡ some (set (key, value) config)
unfolding assign bytes_eq
assign_key host value config = refl
assign_key user value config = refl
assign_key password value config = refl
assign_key database value config = refl
assign_key init_count value config = refl
assign_key max_count value config = refl
assign_key max_idle_time value config = refl
assign_key connection_timeout value config = refl

load_lines_step :
    (key value line key' rest value' tail : Bytes) (config config' : Config) (lines : List Bytes)
    → extract key line ≡ (key', rest)
    → extract value rest ≡ (value', tail)
    → assign key' value' config ≡ some config'
    → load_lines key value config (line ∷ lines) ≡ load_lines key' value' config' lines
unfolding load_lines
load_lines_step key value line key' rest value' tail config config' lines e e' a = ground arith

load_lines_lem :
    (key value : Bytes) (config : Config) (entries : List (Key × Bytes))
    → All (λ (e : Key × Bytes). IsWord e.1) entries
    → load_lines key value config (map line_of entries) ≡ (true, set_all entries config)
unfolding load_lines
load_lines_lem key value config [] h = refl
load_lines_lem key value config (entry ∷ entries) h =
    load_lines_step key value (line_of entry) (key_text entry.0) (32 ∷ entry.1) entry.1 [] config
      (set entry config) (map line_of entries) (extract_key key entry.0 entry.1)
      (extract_value value entry.1 h.0) (assign_key entry.0 entry.1 config)
    ∙ load_lines_lem (key_text entry.0) entry.1 (set entry config) entries h.1

-- A file each of whose lines is one of the eight keys, a blank, and a value without blanks is read to
-- its end, and sets the members that its keys name, in order, numbers by `atoi`.
pub load_config_file-line_of :
    (config : Config) (entries : List (Key × Bytes))
    → All (λ (e : Key × Bytes). IsWord e.1) entries
    → load_config_file config (some (map line_of entries)) ≡ (true, set_all entries config)
unfolding load_config_file
load_config_file-line_of config entries h = load_lines_lem [] [] config entries h

-- A line with a key and no value, after a line with another one, sets its member to the value of that
-- other line.
pub load_config_file_stale :
    (config : Config) (entry : Key × Bytes) (key : Key)
    → IsWord entry.1
    → load_config_file config (some (line_of entry ∷ key_text key ∷ []))
      ≡ (true, set (key, entry.1) (set entry config))
unfolding load_config_file load_lines
load_config_file_stale config entry key h =
    load_lines_step [] [] (line_of entry) (key_text entry.0) (32 ∷ entry.1) entry.1 [] config
      (set entry config) (key_text key ∷ []) (extract_key [] entry.0 entry.1)
      (extract_value [] entry.1 h) (assign_key entry.0 entry.1 config)
    ∙ load_lines_step (key_text entry.0) entry.1 (key_text key) (key_text key) [] entry.1 []
        (set entry config) (set (key, entry.1) (set entry config)) []
        (extract_key_only (key_text entry.0) key) (extract_nothing entry.1)
        (assign_key key entry.1 (set entry config))
