-- ===== src/Host.antt =====
-- src/lib.rs: the functions that the extension offers to SQL, and the registration of its workers.
-- Floating-point numbers and the printing of numbers are arguments.
pub mod Meminfo
pub mod Server
pub mod Workers
pub mod Tests
use Prim.Native.String.{String}
use allgres.Base.{
  ℕ, Bool, true, false, Option, none, some, List, [], ◌∷◌, ◌++◌, ltb, if◌then◌else◌, value_or, any,
}
use allgres.Bytes.{Bytes, lit}
use allgres.Bytes.Compare.{same}
use allgres.Bytes.Split.{split, trim}
use allgres.Json.{Json, bool, num, str, arr, obj, nil, cons, Fields, end, entry, text}
use allgres.Outbound.Request.{Request, Response, guarded_post_json}
use allgres.Worker.Session.{Statement, Database, plain, Result, ok, Exec, ◌>>=◌, pure, spi}

-- `CARGO_PKG_VERSION` is an argument.
pub native_version : Bytes → Bytes
native_version version = version

-- `.ok().flatten().unwrap_or_default()` of a text.
abbrev pub text_of : Result (Option Json) → Bytes
text_of (ok (some (str s))) = s
text_of _ = []

abbrev pub ask_preload : Statement
ask_preload = plain (lit "SELECT current_setting('shared_preload_libraries', true)")

abbrev pub ask_running : Statement
ask_running =
    plain (lit "SELECT count(*) FROM pg_stat_activity WHERE backend_type = 'allgres runtime'")

unfoldable pub preload_libraries : Database → Exec Bytes
preload_libraries db = spi db ask_preload >>= (λ r. pure (text_of r))

-- `preload.split(',').any(|x| x.trim() == "allgres")`
unfoldable pub is_preloaded : Bytes → Bool
is_preloaded preload = any (λ x. same (trim x) (lit "allgres")) (split b',' preload)

pub native_status : Database → Bytes → Bytes → Exec Json
native_status db version rpc_socket = preload_libraries db >>= (λ preload. pure (
    obj (
      entry "name" (text "Allgres") (
        entry "tagline" (text "Postgres Is All You Need.") (
          entry "version" (str version) (
            entry "preloaded" (bool (is_preloaded preload)) (
              entry "runtime_worker" (text "allgres runtime") (
                entry "web_worker" (text "allgres web") (
                  entry "web_default" (text "127.0.0.1:8088")
                    (entry "rpc_socket" (str rpc_socket) end))))))))))

-- What comes of a registration: the worker's process, why it did not start, or a refusal.
pub data Registered : Type 0 where
  started : Json → Registered
  stopped : Bytes → Registered
  unregistered : Registered

-- `BackgroundWorkerBuilder`: the name, the function, the restart time in seconds, and whether the
-- worker speaks to the database.
pub record Builder : Type 0 where
  pub name : String
  pub function : String
  pub restart : ℕ
  pub spi_access : Bool

pub runtime_worker_builder : Builder
runtime_worker_builder = record {
  name = "allgres runtime";
  function = "allgres_runtime_main";
  restart = 5;
  spi_access = true;
}

pub web_worker_builder : Builder
web_worker_builder = record {
  name = "allgres web";
  function = "allgres_web_main";
  restart = 5;
  spi_access = false;
}

-- `_PG_init`: the workers that are registered; the Boolean is whether libraries are being preloaded.
unfoldable pub pg_init : Bool → List Builder
pg_init preloading = if preloading then runtime_worker_builder ∷ web_worker_builder ∷ [] else []

abbrev worker_outcome : String → Registered → Json
worker_outcome label (started pid) =
    obj (entry "worker" (text label) (entry "started" (bool true) (entry "pid" pid end)))
worker_outcome label (stopped status) =
    obj
      (entry "worker" (text label) (entry "started" (bool false) (entry "reason" (str status) end)))
worker_outcome label unregistered = obj (
    entry "worker" (text label) (
      entry "started" (bool false) (
        entry "reason"
          (text "postmaster could not register the worker -- check max_worker_processes") end)))

abbrev pub number_of : (Bytes → Option ℕ) → Result (Option Json) → ℕ
number_of to_count (ok (some (num n))) = value_or 0 (to_count n)
number_of to_count _ = 0

abbrev refusal : Json
refusal = obj (
    entry "ok" (bool false) (
      entry "reason"
        (text
          "allgres is already in shared_preload_libraries; the postmaster owns these workers, dynamic start does not apply")
        end))

abbrev already_running : Json
already_running = obj (entry "ok" (bool true) (entry "already_running" (bool true) end))

-- A builder that `load_dynamic` takes is registered, whether its worker then starts or not.
abbrev pub registered_by : Builder → Registered → List Builder
registered_by b (started pid) = b ∷ []
registered_by b (stopped status) = b ∷ []
registered_by b unregistered = []

module _ (db : Database) (to_count : Bytes → Option ℕ) (register : Builder → Registered) where
  abbrev results : Json
  results = arr (
      cons (worker_outcome "allgres runtime" (register runtime_worker_builder))
        (cons (worker_outcome "allgres web" (register web_worker_builder)) nil))

  -- The reply, and the workers that are registered, where so many runtime workers are running.
  abbrev pub start_unless_running : ℕ → Json × List Builder
  start_unless_running n = if ltb 0 n then (already_running, []) else (
    obj (
        entry "ok" (bool true)
          (entry "already_running" (bool false) (entry "results" results end))),
    registered_by runtime_worker_builder (register runtime_worker_builder)
        ++ registered_by web_worker_builder (register web_worker_builder),
  )

  abbrev pub start_unless_preloaded : Bytes → Exec (Json × List Builder)
  start_unless_preloaded preload =
      if is_preloaded preload
      then pure (refusal, [])
      else spi db ask_running >>= (λ r. pure (start_unless_running (number_of to_count r)))

  unfoldable pub native_start_dynamic_workers : Exec (Json × List Builder)
  native_start_dynamic_workers = preload_libraries db >>= start_unless_preloaded

abbrev as_object : Json → Option Fields
as_object (obj fs) = some fs
as_object _ = none

pub native_llm_http_send : (Request → Response) → (ℕ → Bytes) → Bytes → Json → Json → Bool → Json
native_llm_http_send agent digits url headers body allow_private =
    let r : ℕ × Bytes = guarded_post_json agent url (as_object headers) body allow_private in
    obj (entry "status" (num (digits r.0)) (entry "body" (str r.1) end))
