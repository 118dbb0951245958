-- ===== src/Worker/SqlOutcome.antt =====
-- src/sandbox.rs `submit_sql_result`: what the database is told of a statement's outcome.
use mathlib.Core.Option
use allgres.Base.{
  ℕ, ◌%◌, ◌^◌, true, false, Option, none, some, List, [], ◌∷◌, if◌then◌else◌, value_or,
}
use allgres.Bytes.{Bytes, lit}
use allgres.Json.{Json, num, get, get_str, get_bool, ◌>>=◌}
use allgres.Worker.Session.{Arg, text_arg, int_arg, bool_arg, json_arg, absent, Result, ok, err}

abbrev or_absent : Option Arg → Arg
or_absent = value_or absent

abbrev as_num : Json → Option Bytes
as_num (num n) = some n
as_num _ = none

-- `as_i64` and `as i32`: the lower 32 bits.
abbrev row_count : (Bytes → Option ℕ) → Json → Option ℕ
row_count to_i64 v = do
  n ← get (lit "row_count") v
  text ← as_num n
  i ← to_i64 text
  some (i % 2 ^ 32)

-- What `fn_complete_sql` is told of a statement's outcome. `to_i64` reads a number's text as the
-- bits of an i64.
pub sql_outcome : (Bytes → Option ℕ) → Result Json → List Arg
sql_outcome to_i64 (err e) = bool_arg false ∷ absent ∷ absent ∷ bool_arg false ∷ text_arg e ∷ []
sql_outcome to_i64 (ok v) =
    if value_or false (get_bool (lit "ok") v)
    then bool_arg true
      ∷ or_absent (Option.map json_arg (get (lit "rows") v))
      ∷ or_absent (Option.map int_arg (row_count to_i64 v))
      ∷ bool_arg (value_or false (get_bool (lit "truncated") v))
      ∷ absent
      ∷ []
    else bool_arg false
      ∷ absent
      ∷ absent
      ∷ bool_arg false
      ∷ text_arg (value_or (lit "sql execution failed") (get_str (lit "error") v))
      ∷ []
