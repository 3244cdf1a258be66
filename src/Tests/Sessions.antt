-- ===== src/Tests/Sessions.antt =====
-- A session with a database of one row, for the tests.
use sqlr.Prelude.{
  Result, err, ok, ◌≡◌, refl, sym, arith, ℕ, zero, not, Bool, true, false, List, [], ◌∷◌, Option,
  none, some, some_inj, Text, codes, ◌==◌, ltb, if◌then◌else◌, Bool-cases, inl, inr,
}
use sqlr.Tests.Ascii.{ascii}
use sqlr.Go.Ints.{word, wrap, bits64, Fits-wrap}
use sqlr.Dialect.{Dialect}
use sqlr.Wherein.{Arg, scalar}
use sqlr.Sql.Columns.{Column, int_kind}
use sqlr.Sql.Table.{Table}
use sqlr.Sql.Statement.{Context}
use sqlr.Sql.Execute.{GoValues, Row, ExecResult, Querier}
use sqlr.Session.Steps.{Reflect, Session}
use sqlr.Session.Update.Versioned.{Lawful}

pub data Value : Type 0 where
  null time : Value
  text : Text → Value
  int : ℕ → Value

unfoldable pub fits : ℕ → Option ℕ
fits n = if ltb n word then some n else none

unfoldable pub int_of : Arg Value → Option ℕ
int_of (scalar (int n)) = fits n
int_of _ = none

unfoldable pub with_int : Arg Value → ℕ → Option (Arg Value)
with_int (scalar (int m)) n = if ltb n word then some (scalar (int n)) else none
with_int _ n = none

unfoldable pub scan_int : Arg Value → Result Text ℕ
scan_int (scalar (int n)) = ok n
scan_int _ = err (codes "no int")

abbrev pub reflect : Reflect Value
reflect = record {
  int_of = int_of;
  with_int = with_int;
  with_now = λ a. some (scalar time);
  int64 = int;
  scan_int = scan_int;
}

abbrev pub go_values : GoValues Value
go_values = record {
  null = null;
  bytes = text;
  comparable = λ a. true;
  equal = λ a b. false;
  deep_equal = λ a b. false;
  is_nil = λ a. false;
  marshal = λ a. none;
}

-- A database of one row, which keeps its version.
unfoldable pub exec_in : Text → List (Arg Value) → ℕ → Result Text ExecResult × ℕ
exec_in query (scalar (int new) ∷ id ∷ scalar (int old) ∷ []) d =
    if old == d
    then (ok (record { rows_affected = ok 1; last_insert_id = err [] }), new)
    else (ok (record { rows_affected = ok 0; last_insert_id = err [] }), d)
exec_in query args d = (ok (record { rows_affected = ok 1; last_insert_id = ok 7 }), 1)

abbrev pub querier : Querier ℕ Value
querier = record { exec = exec_in; query = λ query args d. (ok ((scalar (int d) ∷ []) ∷ []), d) }

abbrev pub plain_dialect : Dialect
plain_dialect = record { driver_types = []; quote_func = λ name. name; placeholder_func = none }

abbrev pub column : Text → Bool → ℕ → Column
column name pk i = record {
  column_name = name;
  primary_key = pk;
  auto_increment = false;
  version = not pk;
  json = false;
  natural_key = false;
  empty_null = false;
  field_names = name;
  index = i ∷ [];
  kind = int_kind;
}

abbrev pub id : Column
id = column (codes "id") true 0

abbrev pub version : Column
version = column (codes "v") false 1

abbrev pub context : Context
context = record { dialect = plain_dialect; columns = id ∷ version ∷ []; identifiers = none }

abbrev pub table : Table
table = record {
  cols = id ∷ version ∷ [];
  pk = id ∷ [];
  nk = [];
  autoincr = none;
  created_at = none;
  updated_at = none;
  version = some version;
}

abbrev pub session : Session ℕ Value
session = record {
  go = go_values;
  reflect = reflect;
  querier = querier;
  context = context;
  postgres = false;
  row_type = 0;
  table = table;
  table_name = codes "t";
  can_addr = true;
}

abbrev pub fields : ℕ → List ℕ → Arg Value
fields v (zero ∷ []) = scalar (int 9)
fields v i = scalar (int v)

abbrev pub row : ℕ → Row Value
row v = record { row_type = 0; field = fields v; zero_of = λ i. scalar (int 0) }

pub lawful : Lawful reflect
unfolding int_of with_int fits
lawful = record { width = λ a. bits64; set_keeps = keeps; set_back = back }
  where
    keeps : (a b : Arg Value) (n : ℕ) → with_int a n ≡ some b → int_of b ≡ some (wrap bits64 n)
    keeps (scalar (int m)) b n h = elim (Bool-cases (ltb n word)) [
      | inl l ↦
          let is : scalar (int n) ≡ b = some_inj.0 (rw l at h) in
          rw (sym is, l, Fits-wrap bits64 n (ground arith)) refl
      | inr l ↦ absurd (cc (rw l at h))
    ]
    keeps _ b n h = absurd (cc)

    back :
        (a b : Arg Value) (m n : ℕ)
        → int_of a ≡ some m
        → with_int a n ≡ some b
        → with_int b m ≡ some a
    back (scalar (int k)) b m n h g = elim (Bool-cases (ltb k word)) [
      | inr l ↦ absurd (cc (rw l at h))
      | inl l ↦ elim (Bool-cases (ltb n word)) [
        | inr r ↦ absurd (cc (rw r at g))
        | inl r ↦
            let is : scalar (int n) ≡ b = some_inj.0 (rw r at g) in
            let same : k ≡ m = some_inj.0 (rw l at h) in rw (sym is, sym same, l) refl
      ]
    ]
    back _ b m n h g = absurd (cc)
