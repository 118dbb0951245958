-- ===== src/System/Tests.antt =====
-- A connection that asks for the overview, behind a database that answers true.
use allgres.Base.{refl, arith, true, false, some, none, [], ◌≡◌}
use allgres.Bytes.{lit}
use allgres.Bytes.Compare.{bytes_key}
use allgres.Json.{Json, bool, obj, entry, end, text}
use allgres.Utf8.{utf8_from, char_len}
use allgres.Bytes.Compare.{same, same_ignoring_case, strip_prefix, starts_with}
use allgres.Bytes.Split.{split_first}
use allgres.Http.{got, header, find_header, route}
use allgres.Http.Printed.{print_request}
use allgres.Http.Tests.{sample_request, sample_IsSendable}
use allgres.Web.Api.{get_route, api_route}
use allgres.Web.Auth.{authorized, csrf_ok, bears, origin_ok, constant_time_eq, diff_from}
use allgres.Web.World.{World}
use allgres.Web.Connection.{wrote, api_response, handle_web_connection}
use allgres.Web.Connection.Tests.{config, world, server}
use allgres.Worker.Session.{Database, Session, value}
use allgres.System.Answers.{connected}
use allgres.System.EndToEnd.{handle_web_connection-answers}
use allgres.System.{session_behind, IsRelayed, session_behind-IsRelayed}

abbrev agreeing : Database
agreeing log = value (bool true)

abbrev printing : World
printing = record world { print_json = λ v. lit "{\"action\":\"overview\"}" }

abbrev fresh : Session
fresh = record { log = []; depth = 0; timer = none }

session_behind-IsRelayed_example :
    IsRelayed agreeing false
      (λ _. true)
      true
      printing
      config
      server
      none
      []
      (session_behind agreeing false (λ _. true) true printing config server none fresh).log
session_behind-IsRelayed_example =
    session_behind-IsRelayed agreeing false (λ _. true) true printing config server none fresh

-- A reader that knows this one answer.
abbrev reading : World
reading = record printing { parse_json = λ s. some (bool true) }

abbrev overview : Json
overview = obj (entry "action" (text "overview") end)

-- A client that knows the token asks for the status, in one piece.
abbrev asking : World
asking = record reading {
  connection = λ k. record { clock = 1; result = got (print_request sample_request) };
}

handle_web_connection-answers_example :
    (handle_web_connection (connected agreeing (λ _. true) asking fresh) config server none).reply
    ≡ wrote (api_response asking (bool true))
unfolding authorized bears csrf_ok origin_ok constant_time_eq diff_from route header find_header
    get_route api_route same strip_prefix starts_with same_ignoring_case split_first utf8_from
    char_len
handle_web_connection-answers_example =
    handle_web_connection-answers agreeing (λ _. true) asking fresh config server none
      sample_request overview (bool true) (print_request sample_request) [] sample_IsSendable refl
      (omega arith, refl, omega arith, tt) tt
      (record { in_api = refl; own_origin = refl; not_locked = tt; allowed = refl }) refl
      (record { fits = omega arith; decoded = refl; parsed = refl })
      (record { drops = refl; answers = refl; commits = refl; read_back = refl })
