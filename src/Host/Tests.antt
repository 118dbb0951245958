-- ===== src/Host/Tests.antt =====
-- Registering the workers, and reading what the kernel reports.
use allgres.Base.{
  true, false, none, some, [], ◌∷◌, ◌++◌, ◌≡◌, refl, arith, if◌then◌else◌, empty_map,
}
use allgres.Bytes.{lit}
use allgres.Bytes.Compare.{same}
use allgres.Bytes.Split.{split, split_once, split_whitespace, lines, trim}
use allgres.Json.{Json, num, str}
use allgres.Worker.Session.{Database, failed, value, nothing, query, Session, returns, spi}
use allgres.Host.{
  is_preloaded, native_start_dynamic_workers, Builder, Registered, stopped, unregistered, pg_init,
  preload_libraries, runtime_worker_builder, web_worker_builder,
}
use allgres.Host.Server.{Server, Reports, boot, boot-IsPaired}
use allgres.Host.Workers.{call, taken, taken_all, call-registered}
use allgres.Host.Meminfo.{read_line, read_lines}

preloaded_among_others : is_preloaded (lit "pg_cron, allgres ,auto_explain") ≡ true
unfolding is_preloaded split trim same
preloaded_among_others = refl

preloaded_by_part : is_preloaded (lit "allgres_extra") ≡ false
unfolding is_preloaded split trim same
preloaded_by_part = refl

-- A database that cannot answer.
abbrev silent : Database
silent log = failed (lit "no answer")

abbrev fresh : Session
fresh = record { log = []; depth = 0; timer = none }

-- A postmaster that takes the runtime worker and has no room for another.
abbrev one_slot : Builder → Registered
one_slot b = if b.spi_access then stopped (lit "Stopped") else unregistered

abbrev room : Builder → Registered
room b = stopped (lit "Stopped")

registers_one :
    (reply : Json) × ((s : Session) × (native_start_dynamic_workers silent
          (λ _. none)
          one_slot
          fresh
        ≡ (s, returns (reply, runtime_worker_builder ∷ []))))
unfolding native_start_dynamic_workers is_preloaded split trim same spi preload_libraries
    runtime_worker_builder web_worker_builder
registers_one = (_, (_, refl))

-- A server that preloads another library, and a database that reports so.
abbrev reporting : Database
reporting (query sql args ∷ log) =
    if same sql (lit "SELECT current_setting('shared_preload_libraries', true)")
    then value (str (lit "pg_cron"))
    else value (num (lit "0"))
reporting _ = nothing

abbrev no_workers : Server
no_workers = boot (lit "pg_cron") 0

reporting-Reports : Reports reporting (λ _. some 0) no_workers
unfolding same pg_init is_preloaded split trim
reporting-Reports = record {
  preloads = λ log. refl;
  digits = lit "0";
  counts = λ log. refl;
  counted = refl;
  runs = (λ h. absurd (omega arith), λ h. absurd (h refl));
}

call-registered_example :
    (call reporting (λ _. some 0) one_slot fresh no_workers).registered ≡ taken one_slot
unfolding pg_init is_preloaded split trim same
call-registered_example =
    call-registered reporting (λ _. some 0) one_slot fresh no_workers reporting-Reports
      (boot-IsPaired (lit "pg_cron") 0)

taken_one : taken one_slot ≡ runtime_worker_builder ∷ []
unfolding pg_init runtime_worker_builder web_worker_builder
taken_one = refl

-- Both are registered where there is room.
taken_room : taken room ≡ pg_init true
taken_room = taken_all room (λ b e. ground (arith, e))

-- Where the web worker was refused once, the runtime worker runs, and no further call registers the
-- web worker.
abbrev half_started : Server
half_started = record {
  preload = lit "pg_cron";
  registered = runtime_worker_builder ∷ [];
  running = 1;
}

never_made_up :
    (call reporting (λ _. some 1) room fresh half_started).registered ≡ runtime_worker_builder ∷ []
unfolding call native_start_dynamic_workers is_preloaded split trim same spi preload_libraries
never_made_up = refl

-- While a worker that has died waits for its restart, a call registers both a second time.
abbrev between_restarts : Server
between_restarts = record { preload = lit "pg_cron"; registered = pg_init true; running = 0 }

registers_twice :
    (call reporting (λ _. some 0) room fresh between_restarts).registered
    ≡ pg_init true ++ pg_init true
unfolding call native_start_dynamic_workers is_preloaded split trim same spi pg_init
    preload_libraries
registers_twice = refl

-- A line of another form hides all of the memory.
meminfo_broken : read_lines (λ _. some 1) (lines (lit "MemTotal: 8 kB\nbroken\n")) empty_map ≡ none
unfolding read_lines read_line lines split_once split_whitespace trim
meminfo_broken = refl
