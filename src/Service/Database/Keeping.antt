-- ===== src/Service/Database/Keeping.antt =====
-- A server that keeps the texts of the users in the table jsonServer, whose key is UserName.
use vs2017code.Base.{◌≡◌, ◌≢◌, ap, ◌∙◌, ℕ, Bytes, codes, List, [], ◌∷◌, ◌++◌, some, All}
use vs2017code.Framing.Header.Memory.{IsText, c_string_text}
use vs2017code.Dblayer.Platform.{Platform, result_set}
use vs2017code.Service.Database.{mysql_insert, set_utf8, query_text}

-- A text that stands for itself between two quotes: it has neither that quote nor a backslash.
abbrev pub IsLiteral : ℕ → Bytes → Type 0
IsLiteral quote text = All (λ c. (c ≢ quote) × (c ≢ 92)) text

-- The statements in SQL, as the manual of MySQL has them.
abbrev pub replace_statement : Bytes → Bytes → Bytes
replace_statement user text =
    codes "REPLACE INTO jsonServer(UserName,content) VALUES(\""
    ++ (user ++ (codes "\",'" ++ (text ++ codes "') ")))

abbrev pub select_statement : Bytes → Bytes
select_statement user =
    codes "SELECT content FROM  jsonServer where UserName = \"" ++ (user ++ codes "\"")

-- What the manual says of them. `Holds s user text`: the row of the user has the text.
pub record KeepsTexts (p : Platform) : Type 1 where
  pub Holds : p.Server → Bytes → Bytes → Type 0
  pub replace_holds :
      (s : p.Server) (user text : Bytes)
      → IsLiteral 34 user
      → IsLiteral 39 text
      → Holds (p.real_query s (replace_statement user text)).1 user text
  pub set_names_holds :
      (s : p.Server) (user text : Bytes)
      → Holds s user text
      → Holds (p.real_query s (codes "set names 'utf8'")).1 user text
  pub select_finds :
      (s : p.Server) (user text : Bytes)
      → IsLiteral 34 user
      → Holds s user text
      → (fields : List (Bytes × ℕ)) × (after : p.Server) × (p.real_query s (select_statement user)
          ≡ (result_set fields ((some text ∷ []) ∷ []), after))

module _ {p : Platform} (keeps : KeepsTexts p) (server : p.Server) (user text : Bytes)
    (user_literal : IsLiteral 34 user) (text_literal : IsLiteral 39 text)
    (user_text : IsText user) where
  mysql_insert-Holds : keeps.Holds (mysql_insert p user text server) user text
  unfolding mysql_insert
  mysql_insert-Holds = keeps.replace_holds (set_utf8 p server) user text user_literal text_literal

  -- What mysql_insert has stored is found by the statement of mysql_query.
  pub mysql_insert-found :
      (fields : List (Bytes × ℕ)) × (after : p.Server) × (p.real_query
          (set_utf8 p (mysql_insert p user text server))
          (query_text user)
        ≡ (result_set fields ((some text ∷ []) ∷ []), after))
  unfolding set_utf8
  mysql_insert-found =
      let stored : p.Server = mysql_insert p user text server in
      let (fields, after, found) =
        keeps.select_finds (set_utf8 p stored) user text user_literal
          (keeps.set_names_holds stored user text mysql_insert-Holds) in
      (
        fields,
        after,
        ap (λ u. p.real_query (set_utf8 p stored) (select_statement u))
              (c_string_text user user_text)
            ∙ found,
      )
