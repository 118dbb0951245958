-- ===== src/Outbound/Flags.antt =====
-- src/outbound.rs `OUTBOUND_CANCEL_FLAGS` and `CancelGuard`, and the half of src/runtime_worker.rs
-- `propagate_outbound_cancellations` that sets the flags. Each guard has a flag of its own, which the
-- map shares as long as it holds it.
pub mod Marks
pub mod Tests
use allgres.Base.{
  ℕ, suc, Bool, true, false, Option, none, some, List, [], ◌∷◌, ◌==◌, if◌then◌else◌, Map, empty_map,
  insert, remove,
}
use allgres.Bytes.{Bytes}
use allgres.Bytes.Compare.{bytes_key}

-- The flags by their place in memory, and the first place that is free.
pub record Flags : Type 0 where
  pub map : Map Bytes ℕ
  pub flag : ℕ → Bool
  pub next : ℕ

abbrev pub no_flags : Flags
no_flags = record { map = empty_map; flag = λ _. false; next = 0 }

abbrev pub write : ℕ → Bool → (ℕ → Bool) → ℕ → Bool
write place b flag i = if i == place then b else flag i

-- `CancelGuard::register`: the place of the guard's flag is the one that was free.
pub register : Bytes → Flags → Flags
register call_id f = record {
  map = insert call_id f.next f.map;
  flag = write f.next false f.flag;
  next = suc f.next;
}

-- `CancelGuard::drop`
pub drop_guard : Bytes → Flags → Flags
drop_guard call_id f = record f { map = remove call_id f.map }

abbrev store_at : Option ℕ → Flags → Flags
store_at none f = f
store_at (some place) f = record f { flag = write place true f.flag }

-- `for call_id in &lost`
pub mark_lost : List Bytes → Flags → Flags
mark_lost [] f = f
mark_lost (call_id ∷ ids) f = mark_lost ids (store_at (f.map call_id) f)

-- What the threads and the main loop do to the map, in the order of its lock.
pub data FlagOp : Type 0 where
  registers : Bytes → FlagOp
  drops : Bytes → FlagOp
  marks : List Bytes → FlagOp

pub step : Flags → FlagOp → Flags
step f (registers call_id) = register call_id f
step f (drops call_id) = drop_guard call_id f
step f (marks ids) = mark_lost ids f

pub run : Flags → List FlagOp → Flags
run f [] = f
run f (op ∷ ops) = run (step f op) ops
