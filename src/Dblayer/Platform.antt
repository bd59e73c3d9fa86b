-- ===== src/Dblayer/Platform.antt =====
-- What the database layer takes from outside the repository: the MySQL C API (libmysqlclient and
-- the server behind it), and the conversions of etp/helper and boost. And the session on which its
-- operations run: a state monad whose results are values, C++ exceptions or undefined behaviour.
use vs2017code.Base.{ℕ, Bytes, Bool, List, Option, none, some, ◌≡◌, ℤ}

-- The arguments of a connection; `client_flag` is the last argument of `mysql_real_connect`.
pub record Login : Type 0 where
  pub host : Bytes
  pub user : Bytes
  pub passwd : Bytes
  pub db : Bytes
  pub port : ℕ
  pub client_flag : ℕ

-- What `mysql_real_query` leads to: an error, a statement without a result set and its count of
-- affected rows, or a result set, the name and type of each field and the rows, NULL as `none`.
pub data Reply : Type 0 where
  failed : Reply
  affected : ℕ → Reply
  result_set : List (Bytes × ℕ) → List (List (Option Bytes)) → Reply

pub record Platform : Type 1 where
  pub Server : Type 0
  -- `mysql_init` and `mysql_options` succeed
  pub init_succeeds : Server → Bool
  pub options_succeed : Server → Bool
  pub real_connect : Server → Login → Bool × Server
  pub set_character_set : Server → Bytes → Server
  pub select_db : Server → Bytes → ℤ × Server
  pub close : Server → Server
  -- `mysql_ping` returns 0
  pub ping_succeeds : Server → Bool × Server
  pub real_query : Server → Bytes → Reply × Server
  -- C++ `int`, `long long` and `double`, boost::lexical_cast to text, and the readers of etp/helper
  pub Int : Type 0
  pub Double : Type 0
  -- the value of an `int`
  pub int_value : Int → ℤ
  pub print_int : Int → Bytes
  pub print_double : Double → Bytes
  pub to_int : Bytes → Int
  pub to_double : Bytes → Double
  pub to_long_long : Bytes → ℤ
  -- 0.0, 1.0, `+`, `*`, and the `Greater` of etp/helper, which has a tolerance
  pub double_zero : Double
  pub double_one : Double
  pub plus : Double → Double → Double
  pub times : Double → Double → Double
  pub greater : Double → Double → Bool

-- What is documented of the conversions: a number is read back from its decimal text.
pub record ConversionsRoundTrip (p : Platform) : Type 0 where
  pub to_int-print_int : (n : p.Int) → p.to_int (p.print_int n) ≡ n
  pub to_double-print_double : (x : p.Double) → p.to_double (p.print_double x) ≡ x

-- `m_Data`: NULL, a handle from `mysql_init`, or a pointer whose handle `mysql_close` has freed.
pub data Handle : Type 0 where
  null live freed : Handle

-- A CDBOperation and the server that it talks to; `open_handles` counts the handles that
-- `mysql_init` allocated and `mysql_close` has not freed.
pub record Session (p : Platform) : Type 0 where
  pub handle : Handle
  pub open_handles : ℕ
  pub login : Login
  pub server : p.Server

pub data Outcome (A : Type 0) : Type 0 where
  ok : A → Outcome A
  thrown : Outcome A
  -- undefined behaviour: a NULL or freed handle is used, or a vector is read past its end
  fault : Outcome A

abbrev pub M : Platform → Type 0 → Type 0
M p A = Session p → Outcome A × Session p

abbrev pub return : {p : Platform} {A : Type 0} → A → M p A
return a s = (ok a, s)

abbrev pub continue_with :
    {p : Platform} {A B : Type 0} → Outcome A × Session p → (A → M p B) → Outcome B × Session p
continue_with (ok a, s) f = f a s
continue_with (thrown, s) f = (thrown, s)
continue_with (fault, s) f = (fault, s)

infixl 5 ◌>>=◌ ◌>>◌
abbrev pub ◌>>=◌ : {p : Platform} {A B : Type 0} → M p A → (A → M p B) → M p B
◌>>=◌ m f s = continue_with (m s) f

abbrev pub ◌>>◌ : {p : Platform} {B : Type 0} → M p (Unit {0}) → M p B → M p B
◌>>◌ m k s = continue_with (m s) (λ _. k)

abbrev pub throw : {p : Platform} {A : Type 0} → M p A
throw s = (thrown, s)

abbrev pub undefined : {p : Platform} {A : Type 0} → M p A
undefined s = (fault, s)

-- `catch (...) { return a; }`
abbrev recover : {p : Platform} {A : Type 0} → A → Outcome A × Session p → Outcome A × Session p
recover a (ok b, s) = (ok b, s)
recover a (thrown, s) = (ok a, s)
recover a (fault, s) = (fault, s)

abbrev pub catch_all : {p : Platform} {A : Type 0} → A → M p A → M p A
catch_all a m s = recover a (m s)

-- A read of a vector; past its end it is undefined.
abbrev pub at_index : {p : Platform} {A : Type 0} → Option A → M p A
at_index (some a) s = (ok a, s)
at_index none s = (fault, s)
