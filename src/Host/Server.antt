-- ===== src/Host/Server.antt =====
-- What src/lib.rs finds a server like: its setting and its workers, as `_PG_init` leaves them.
use allgres.Base.{
  ℕ, ◌<◌, Bool, true, false, Option, some, List, [], ◌∷◌, ◌≡◌, ◌≢◌, ◌⊎◌, ◌↔◌, inl, inr, refl, arith,
}
use allgres.Bytes.{Bytes}
use allgres.Json.{num, str}
use allgres.Worker.Session.{Statement, value, Database}
use allgres.Host.{Builder, is_preloaded, pg_init, ask_preload, ask_running}

-- The server: the setting `shared_preload_libraries`, the workers that are registered with it, and
-- how many runtime workers it shows as running.
pub record Server : Type 0 where
  pub preload : Bytes
  pub registered : List Builder
  pub running : ℕ

-- The server preloads its libraries, and calls `_PG_init` of each.
abbrev pub boot : Bytes → ℕ → Server
boot preload running = record {
  preload = preload;
  registered = pg_init (is_preloaded preload);
  running = running;
}

-- The database answers by the server's state, and the server shows a runtime worker as running
-- exactly if one is registered.
pub record Reports (db : Database) (to_count : Bytes → Option ℕ) (server : Server) : Type 0 where
  pub preloads : (log : List Statement) → db (ask_preload ∷ log) ≡ value (str server.preload)
  pub digits : Bytes
  pub counts : (log : List Statement) → db (ask_running ∷ log) ≡ value (num digits)
  pub counted : to_count digits ≡ some server.running
  pub runs : (0 < server.running) ↔ (server.registered ≢ [])

-- Both workers or none, and both where they are preloaded.
pub record IsPaired (server : Server) : Type 0 where
  pub paired : (server.registered ≡ []) ⊎ (server.registered ≡ pg_init true)
  pub preloaded : is_preloaded server.preload ≡ true → server.registered ≡ pg_init true

pub boot-IsPaired : (preload : Bytes) (running : ℕ) → IsPaired (boot preload running)
unfolding pg_init
boot-IsPaired preload running = by_preload (is_preloaded preload) refl
  where
    by_preload :
        (b : Bool)
        → is_preloaded preload ≡ b
        → IsPaired (record { preload = preload; registered = pg_init b; running = running })
    by_preload true e = record { paired = inr refl; preloaded = λ _. refl }
    by_preload false e = record { paired = inl refl; preloaded = λ h. ground (arith, e, h) }

pub pair-nonempty : pg_init true ≢ []
unfolding pg_init
pair-nonempty = ground arith
