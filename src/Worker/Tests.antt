-- ===== src/Worker/Tests.antt =====
-- Runs of the executors over a database that answers alike.
use allgres.Base.{all, true, false, some, none, [], ◌∷◌, ◌++◌, ◌≡◌, refl}
use allgres.Bytes.{Bytes, lit}
use allgres.Bytes.Search.{before}
use allgres.Json.{Json, null}
use allgres.Worker.Ident.{delimiter, enclosed, dollar_quote}
use allgres.Worker.Ident.Quote.{dollar_quote_lem}
use allgres.Utf8.{utf8_from, char_len}
use allgres.Utf8.Truncate.{IsCut}
use allgres.Utf8.WithoutNul.{nonzero, without_nul}
use allgres.Worker.Claims.{sanitized, max_response_bytes}
use allgres.Worker.Claims.Sanitized.{sanitized_lem}
use allgres.Worker.Execute.Returns.{AllReturn, executors-Returns}
use allgres.Worker.Session.{Fault, Database, value, raised, Session, ok}
use allgres.Worker.Execute.{run_sandboxed_sql, run_timed, function_call}
use allgres.Worker.Execute.Leaks.{timer_after, run_timed-timer, run_sandboxed_sql-depth}

abbrev ready : Database
ready log = value (Json.bool true)

abbrev not_ready : Database
not_ready log = value (Json.bool false)

abbrev division_by_zero : Fault
division_by_zero = record { message = lit "division by zero"; by_timer = false }

abbrev raising : Database
raising log = raised division_by_zero

abbrev fresh : Session
fresh = record { log = []; depth = 0; timer = none }

abbrev ident : Bytes
ident = lit "fn_0123456789abcdef0123456789abcdef"

-- A body that holds the first tag.
dollar_quote_lem_example :
    (tag : Bytes) × (dollar_quote (lit "1f") (lit "$body_1f$")
      ≡ some (tag, delimiter tag ++ enclosed tag (lit "$body_1f$")))
    × (before (delimiter tag) (enclosed tag (lit "$body_1f$"))
        ≡ b'\n' ∷ (lit "$body_1f$" ++ b'\n' ∷ []))
dollar_quote_lem_example = dollar_quote_lem (lit "1f") (lit "$body_1f$") refl

run_timed-timer_example :
    (run_timed raising false 5000 (function_call ident null) (ok null) fresh).0.timer
    ≡ timer_after 5000 (raised division_by_zero)
run_timed-timer_example =
    run_timed-timer raising false 5000 (function_call ident null) (ok null) fresh

run_sandboxed_sql-depth_example :
    (run_sandboxed_sql not_ready false (lit "a") (lit "select 1") none fresh).0.depth ≡ 1
run_sandboxed_sql-depth_example =
    run_sandboxed_sql-depth not_ready (lit "a") (lit "select 1") none fresh refl

sanitized_lem_example :
    (all nonzero (sanitized (lit "a" ++ 0 ∷ lit "b")) ≡ true)
    × IsCut
        (without_nul (lit "a" ++ 0 ∷ lit "b"))
        max_response_bytes
        (sanitized (lit "a" ++ 0 ∷ lit "b"))
unfolding utf8_from char_len
sanitized_lem_example = sanitized_lem (lit "a" ++ 0 ∷ lit "b") refl

executors-Returns_example : AllReturn raising false ident (lit "select 1") (lit "1f") null none
executors-Returns_example =
    executors-Returns raising false ident (lit "select 1") (lit "1f") null none
