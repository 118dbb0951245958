-- ===== src/Host/Workers.antt =====
-- src/lib.rs `_PG_init` and `native_start_dynamic_workers`: which workers are registered.
use allgres.Base.{
  ℕ, ◌<◌, Bool, true, false, Option, List, [], ◌∷◌, ◌++◌, append-nil, ◌≡◌, ◌≢◌, inl, inr, refl, sym,
  ◌∙◌, ap, is_empty, arith, ltb, if◌then◌else◌, Bool-cases,
}
use mathlib.Core.List.{cons≢nil}
use allgres.Bytes.{Bytes}
use allgres.Json.{Json, str}
use allgres.Worker.Session.{
  value, Database, Session, Outcome, returns, unwinds, Result, next, pure, send, spi-value,
}
use allgres.Host.{
  Builder, Registered, is_preloaded, pg_init, ask_preload, ask_running, preload_libraries, text_of,
  started, stopped, unregistered, registered_by, runtime_worker_builder, web_worker_builder,
  native_start_dynamic_workers, start_unless_preloaded, start_unless_running, number_of,
}
use allgres.Host.Server.{Server, Reports, IsPaired, pair-nonempty}

abbrev workers_in : Session × Outcome (Json × List Builder) → List Builder
workers_in (s, returns (reply, workers)) = workers
workers_in (s, unwinds e) = []

-- What a call of the function makes of it.
unfoldable pub call :
    Database → (Bytes → Option ℕ) → (Builder → Registered) → Session → Server → Server
call db to_count register s server = record server {
  registered = workers_in (native_start_dynamic_workers db to_count register s) ++ registered;
}
  where
    open server use {registered}

abbrev is_taken : Registered → Bool
is_taken (started pid) = true
is_taken (stopped status) = true
is_taken unregistered = false

abbrev taken_of : (Builder → Registered) → List Builder → List Builder
taken_of register [] = []
taken_of register (b ∷ bs) =
    if is_taken (register b) then b ∷ taken_of register bs else taken_of register bs

-- The workers that the postmaster takes.
abbrev pub taken : (Builder → Registered) → List Builder
taken register = taken_of register (pg_init true)

registered_by-taken :
    (register : Builder → Registered)
    → registered_by runtime_worker_builder (register runtime_worker_builder)
        ++ registered_by web_worker_builder (register web_worker_builder)
      ≡ taken register
unfolding pg_init
registered_by-taken register = both (register runtime_worker_builder) (register web_worker_builder)
  where
    both :
        (a b : Registered)
        → registered_by runtime_worker_builder a ++ registered_by web_worker_builder b ≡ (
            if is_taken a
            then runtime_worker_builder ∷ (if is_taken b then web_worker_builder ∷ [] else [])
            else if is_taken b
            then web_worker_builder ∷ []
            else [])
    both (started pid) (started pid') = refl
    both (started pid) (stopped status) = refl
    both (started pid) unregistered = refl
    both (stopped status) (started pid) = refl
    both (stopped status) (stopped status') = refl
    both (stopped status) unregistered = refl
    both unregistered (started pid) = refl
    both unregistered (stopped status) = refl
    both unregistered unregistered = refl

-- All are taken where none is refused.
pub taken_all :
    (register : Builder → Registered)
    → ((b : Builder) → register b ≢ unregistered)
    → taken register ≡ pg_init true
unfolding pg_init
taken_all register h =
    rw (unrefused _ (h runtime_worker_builder), unrefused _ (h web_worker_builder)) refl
  where
    unrefused : (a : Registered) → a ≢ unregistered → is_taken a ≡ true
    unrefused (started pid) h = refl
    unrefused (stopped status) h = refl
    unrefused unregistered h = absurd (h refl)

none_running : (n : ℕ) → ltb 0 n ≡ false → ¬ (0 < n)
none_running n h = ground arith

ltb-lt : (n : ℕ) → ltb 0 n ≡ true → 0 < n
ltb-lt n h = ground arith

preload-value :
    (db : Database) (s : Session) {libs : Bytes}
    → db (ask_preload ∷ s.log) ≡ value (str libs)
    → preload_libraries db s ≡ (send ask_preload s, returns libs)
unfolding preload_libraries
preload-value db s e = ap (next (λ r. pure (text_of r))) (spi-value db ask_preload s e)

module _ (db : Database) (to_count : Bytes → Option ℕ) (register : Builder → Registered) where
  -- What is registered by a call, from what the database reports.
  start_workers :
      (s : Session) (server : Server)
      → Reports db to_count server
      → workers_in (native_start_dynamic_workers db to_count register s) ≡ (
          if is_preloaded server.preload
          then []
          else if ltb 0 server.running
          then []
          else taken register)
  unfolding native_start_dynamic_workers
  start_workers s server r =
      ap (λ o. workers_in (next (start_unless_preloaded db to_count register) o))
        (preload-value db s (r.preloads s.log))
      ∙ elim (Bool-cases (is_preloaded server.preload)) [
        | inl e ↦ rw e refl
        | inr e ↦ rw e (
            ap (λ o. workers_in (next (λ r. pure (reply r)) o))
              (spi-value db ask_running (send ask_preload s) (r.counts (ask_preload ∷ s.log)))
            ∙ rw r.counted (elim (Bool-cases (ltb 0 server.running)) [
              | inl k ↦ rw k refl
              | inr k ↦ rw k (registered_by-taken register)
            ]))
      ]
    where
      reply : Result (Option Json) → Json × List Builder
      reply r = start_unless_running db to_count register (number_of to_count r)

  -- A call of `native_start_dynamic_workers` registers no worker twice, and leaves out only those
  -- that the postmaster refuses: where both are registered, by preloading or by a call before, they
  -- stay as they are; where none is, each is registered once if the postmaster takes it, and not at
  -- all if it does not. So it is if both or none are registered, both where they are preloaded, and
  -- the server shows a runtime worker as running exactly where a worker is registered.
  pub call-registered :
      (s : Session) (server : Server)
      → Reports db to_count server
      → IsPaired server
      → (call db to_count register s server).registered
        ≡ (if is_empty server.registered then taken register else pg_init true)
  unfolding call
  call-registered s server r p = rw (start_workers s server r) (by_list server.registered refl)
    where
      shown : server.registered ≢ [] → ltb 0 server.running ≡ true
      shown some_yet = elim (Bool-cases (ltb 0 server.running)) [
        | inl k ↦ k
        | inr k ↦ absurd (none_running server.running k (r.runs.1 some_yet))
      ]

      both : server.registered ≢ [] → server.registered ≡ pg_init true
      both some_yet = elim p.paired [ inl none_yet ↦ absurd (some_yet none_yet) | inr e ↦ e ]

      kept :
          server.registered ≢ []
          → (if is_preloaded server.preload
                then []
                else if ltb 0 server.running
                then []
                else taken register)
              ++ server.registered
            ≡ pg_init true
      kept some_yet = rw (shown some_yet) (elim (Bool-cases (is_preloaded server.preload)) [
        | inl e ↦ rw e (both some_yet)
        | inr e ↦ rw e (both some_yet)
      ])

      not_preloaded : server.registered ≡ [] → is_preloaded server.preload ≡ false
      not_preloaded none_yet = elim (Bool-cases (is_preloaded server.preload)) [
        | inl e ↦ absurd (pair-nonempty (sym (p.preloaded e) ∙ none_yet))
        | inr e ↦ e
      ]

      not_shown : server.registered ≡ [] → ltb 0 server.running ≡ false
      not_shown none_yet = elim (Bool-cases (ltb 0 server.running)) [
        | inl k ↦ absurd (r.runs.0 (ltb-lt server.running k) none_yet)
        | inr k ↦ k
      ]

      filled :
          server.registered ≡ []
          → (if is_preloaded server.preload
                then []
                else if ltb 0 server.running
                then []
                else taken register)
              ++ server.registered
            ≡ taken register
      filled none_yet =
          rw (not_preloaded none_yet, not_shown none_yet, none_yet) (append-nil (taken register))

      by_list :
          (bs : List Builder)
          → server.registered ≡ bs
          → (if is_preloaded server.preload
                then []
                else if ltb 0 server.running
                then []
                else taken register)
              ++ server.registered
            ≡ (if is_empty server.registered then taken register else pg_init true)
      by_list [] e = filled e ∙ rw e refl
      by_list (b ∷ bs) e = kept (λ k. cons≢nil (sym e ∙ k)) ∙ rw e refl
