-- ===== src/Tests/Keeping.antt =====
-- A server for the tests that keeps the last REPLACE, and answers each SELECT with its text.
use vs2017code.Base.{
  ℕ, ◌+◌, ◌*◌, ◌≡◌, refl, ap, ◌∙◌, arith, Bytes, codes, true, [], ◌∷◌, ◌++◌, ◌==◌, ltb,
  if◌then◌else◌, drop, some, pos,
}
use vs2017code.Dblayer.Platform.{Platform, Reply, failed, affected, result_set}
use vs2017code.Service.Database.Keeping.{IsLiteral, KeepsTexts, replace_statement}

-- What stands behind the first double quote, and what in front of the first single one.
behind_quote : Bytes → Bytes
behind_quote [] = []
behind_quote (c ∷ s) = let rest = behind_quote s in if c == 34 then s else rest

before_quote : Bytes → Bytes
before_quote [] = []
before_quote (c ∷ s) = let rest = before_quote s in if c == 39 then [] else c ∷ rest

-- The text of a REPLACE: behind the two quotes of the name, and ",'".
replaced_text : Bytes → Bytes
unfolding behind_quote before_quote
replaced_text sql = before_quote (drop 2 (behind_quote (behind_quote sql)))

-- By its first letter a statement is a REPLACE ('R'), a SELECT ('S') or another one.
pub answer_to : Bytes → Bytes → Reply × Bytes
unfolding replaced_text
answer_to last [] = (failed, last)
answer_to last (c ∷ sql) =
    if c == 82
    then (affected 1, c ∷ sql)
    else if c == 83
    then (result_set ((codes "content", 252) ∷ []) ((some (replaced_text last) ∷ []) ∷ []), last)
    else (affected 0, last)

abbrev pub keeping : Platform
keeping = record {
  Server = Bytes;
  init_succeeds = λ _. true;
  options_succeed = λ _. true;
  real_connect = λ last login. (true, last);
  set_character_set = λ last name. last;
  select_db = λ last db. (pos 0, last);
  close = λ last. last;
  ping_succeeds = λ last. (true, last);
  real_query = answer_to;
  Int = ℕ;
  Double = ℕ;
  int_value = λ n. pos n;
  print_int = λ n. [];
  print_double = λ n. [];
  to_int = λ text. 0;
  to_double = λ text. 0;
  to_long_long = λ text. pos 0;
  double_zero = 0;
  double_one = 1;
  plus = λ x y. x + y;
  times = λ x y. x * y;
  greater = λ x y. ltb y x;
}

behind_quote-literal : (s rest : Bytes) → IsLiteral 34 s → behind_quote (s ++ 34 ∷ rest) ≡ rest
unfolding behind_quote
behind_quote-literal [] rest h = refl
behind_quote-literal (c ∷ s) rest h = ground (arith, h.0.0, behind_quote-literal s rest h.1)

before_quote-literal : (s rest : Bytes) → IsLiteral 39 s → before_quote (s ++ 39 ∷ rest) ≡ s
unfolding before_quote
before_quote-literal [] rest h = refl
before_quote-literal (c ∷ s) rest h = ground (arith, h.0.0, before_quote-literal s rest h.1)

replaced_text-replace_statement :
    (user text : Bytes)
    → IsLiteral 34 user
    → IsLiteral 39 text
    → replaced_text (replace_statement user text) ≡ text
unfolding replaced_text behind_quote
replaced_text-replace_statement user text user_literal text_literal =
    ap (λ s. before_quote (drop 2 s))
      (behind_quote-literal user (codes ",'" ++ (text ++ codes "') ")) user_literal)
    ∙ before_quote-literal text (codes ") ") text_literal

pub keeping-KeepsTexts : KeepsTexts keeping
unfolding answer_to
keeping-KeepsTexts = record {
  Holds = λ last user text. replaced_text last ≡ text;
  replace_holds = λ last user text user_literal text_literal.
      replaced_text-replace_statement user text user_literal text_literal;
  set_names_holds = λ last user text held. held;
  select_finds = λ last user text user_literal held. (
    (codes "content", 252) ∷ [],
    last,
    ap (λ found. (result_set ((codes "content", 252) ∷ []) ((some found ∷ []) ∷ []), last)) held,
  );
}
