-- ===== src/Worker/Guard/Queues.antt =====
-- What is claimed and handed back keeps to the policy.
use Prim.Native.String.{String}
use allgres.Base.{ℕ, Bool, true, false, Option, List, [], ◌∷◌, ◌≡◌, refl, if◌then◌else◌}
use allgres.Bytes.{Bytes, lit}
use allgres.Bytes.Compare.{same}
use allgres.Json.{Json}
use allgres.Worker.Session.{
  Statement, check_installed, Arg, query, plain, Database, Result, Exec, ◌>>=◌, pure, spi, is_true,
}
use allgres.Worker.Claims.{
  extension_is_installed, watch_and_dispatch, dropped_or, claim, submit_with, dispatch_and_claim,
  lost_outbound, dashboard_rpc,
}
use allgres.Worker.Policy.{is_own, Confined, asks, Confined-is_dropped}
use allgres.Worker.Guard.{
  Begun, Anything, Triple, Keeps, KeepsDropped, IfConfined, bind_Triple, pure_Dropped, pure-Keeps,
  narrow, weaken,
}
use allgres.Worker.Guard.Steps.{own_Triple, last_Triple, drop_privileges_Triple, transaction_Triple}

module _ (db : Database) where
  -- What stands behind the settings, and what is done where they fail.
  pub if_confined :
      {A : Type 0} {m : Exec A} (sts : List Statement) (b : Bool) (refused : A)
      → Triple db (Confined db sts) m (λ _. Anything)
      → Triple db (IfConfined db sts b) (if b then m else pure refused) (λ _. Anything)
  if_confined sts true refused h = h
  if_confined sts false refused h = pure-Keeps db refused

  pub dropped_or_Triple :
      {A : Type 0} {m : Exec A} (refused : A)
      → KeepsDropped db m
      → Triple db Begun (dropped_or db false refused m) (λ _. Anything)
  unfolding dropped_or
  dropped_or_Triple refused h = bind_Triple db (drop_privileges_Triple db) (λ b.
      if_confined [] b refused
        (narrow db (λ log c. Confined-is_dropped db c) (weaken db h (λ a log p. tt))))

  own_then :
      {A : Type 0} (sql : Bytes) (args : List Arg) (f : Result (Option Json) → A)
      → is_own sql ≡ true
      → KeepsDropped db (spi db (query sql args) >>= (λ r. pure (f r)))
  own_then sql args f x = bind_Triple db (own_Triple db sql args x) (λ r. pure_Dropped db (f r))

  pub claim-Keeps :
      (key sql : String) (limit : ℕ)
      → is_own (lit sql) ≡ true
      → Keeps db (claim db false key sql limit)
  unfolding claim
  claim-Keeps key sql limit x =
      transaction_Triple db (dropped_or_Triple _ (own_then (lit sql) _ _ x))

  pub submit_with-Keeps :
      (sql : String) (args : List Arg)
      → is_own (lit sql) ≡ true
      → Keeps db (submit_with db false sql args)
  unfolding submit_with
  submit_with-Keeps sql args x =
      transaction_Triple db (dropped_or_Triple _ (own_then (lit sql) _ _ x))

  pub dispatch_and_claim-Keeps : (limit : ℕ) → Keeps db (dispatch_and_claim db false limit)
  unfolding dispatch_and_claim watch_and_dispatch is_own same
  dispatch_and_claim-Keeps limit = transaction_Triple db (
      dropped_or_Triple _ (
        bind_Triple db
          (bind_Triple db (bind_Triple db (own_Triple db _ _ refl) (λ _. own_Triple db _ _ refl))
            (λ _. own_Triple db _ _ refl))
          (λ r. pure_Dropped db _)))

  pub lost_outbound-Keeps : (ids : List Bytes) → Keeps db (lost_outbound db false ids)
  unfolding lost_outbound is_own same
  lost_outbound-Keeps [] = pure-Keeps db []
  lost_outbound-Keeps (id ∷ ids) = transaction_Triple db (dropped_or_Triple _ (own_then _ _ _ refl))

  pub dashboard_rpc-Keeps :
      (print : Json → Bytes) (request : Bytes) → Keeps db (dashboard_rpc db false print request)
  unfolding dashboard_rpc is_own same
  dashboard_rpc-Keeps print request =
      transaction_Triple db (dropped_or_Triple _ (own_then _ _ _ refl))

  pub extension_is_installed-Keeps : Keeps db (extension_is_installed db)
  unfolding extension_is_installed
  extension_is_installed-Keeps = transaction_Triple db (
      bind_Triple db (last_Triple db (plain check_installed) (λ log p. asks))
        (λ r. pure-Keeps db (is_true r)))
