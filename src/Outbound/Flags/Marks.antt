-- ===== src/Outbound/Flags/Marks.antt =====
-- A call's flag is set exactly when the call is given up.
use allgres.Base.{
  ℕ, ◌<◌, Bool, true, false, ◌||◌, not, Option, none, some, List, [], ◌∷◌, ◌≡◌, refl, ap, ◌∙◌,
  arith, any, all, and_true,
}
use allgres.Bytes.{Bytes}
use allgres.Bytes.Compare.{same, same_iff, same_refl}
use allgres.Outbound.Flags.{
  Flags, no_flags, register, drop_guard, store_at, mark_lost, FlagOp, registers, drops, marks, step,
  run,
}

-- Whether a step gives the call up, and whether it leaves the call's guard alone.
abbrev pub gives_up : Bytes → FlagOp → Bool
gives_up call_id (marks ids) = any (same call_id) ids
gives_up call_id _ = false

abbrev pub is_apart : Bytes → FlagOp → Bool
is_apart call_id (registers id) = not (same id call_id)
is_apart call_id (drops id) = not (same id call_id)
is_apart call_id (marks ids) = true

-- Every place in the map is taken, and the call's is no other's.
record IsHeld (call_id : Bytes) (place : ℕ) (f : Flags) : Type 0 where
  pub held : f.map call_id ≡ some place
  pub taken : place < f.next
  pub apart : (id : Bytes) → f.map id ≡ some place → same id call_id ≡ true
  pub below : (id : Bytes) (i : ℕ) → f.map id ≡ some i → i < f.next

or_assoc : (a b c : Bool) → ((a || b) || c) ≡ (a || (b || c))
or_assoc a b c = ground arith

module _ (call_id : Bytes) (place : ℕ) where
  mark_one :
      (id : Bytes) (f : Flags)
      → IsHeld call_id place f
      → IsHeld call_id place (store_at (f.map id) f)
        × ((store_at (f.map id) f).flag place ≡ (f.flag place || same call_id id))
  mark_one id f h = by_place (f.map id) refl
    where
      by_place :
          (o : Option ℕ)
          → f.map id ≡ o
          → IsHeld call_id place (store_at o f)
            × ((store_at o f).flag place ≡ (f.flag place || same call_id id))
      by_place none e = (h, ground (arith, same_iff call_id id, h.held, e))
      by_place (some i) e = (
        record { held = h.held; taken = h.taken; apart = h.apart; below = h.below },
        ground (arith, same_iff call_id id, same_iff id call_id, h.held, e, h.apart id),
      )

  mark_all :
      (ids : List Bytes) (f : Flags)
      → IsHeld call_id place f
      → IsHeld call_id place (mark_lost ids f)
        × ((mark_lost ids f).flag place ≡ (f.flag place || any (same call_id) ids))
  unfolding mark_lost
  mark_all [] f h = (h, ground arith)
  mark_all (id ∷ ids) f h =
      let (h', e) = mark_one id f h in
      let (h'', e') = mark_all ids (store_at (f.map id) f) h' in
      (h'', e' ∙ ap (λ b. b || any (same call_id) ids) e ∙ or_assoc (f.flag place) _ _)

  step-IsHeld :
      (op : FlagOp) (f : Flags)
      → is_apart call_id op ≡ true
      → IsHeld call_id place f
      → IsHeld call_id place (step f op)
        × ((step f op).flag place ≡ (f.flag place || gives_up call_id op))
  unfolding step register drop_guard
  step-IsHeld (registers id) f a h = (
    record {
      held = ground (arith, h.held);
      taken = omega (arith, h.taken);
      apart = λ j. ground (arith, h.apart j, h.taken);
      below = λ j i. ground (arith, h.below j i);
    },
    ground (arith, h.taken),
  )
  step-IsHeld (drops id) f a h = (
    record {
      held = ground (arith, h.held);
      taken = h.taken;
      apart = λ j. ground (arith, h.apart j);
      below = λ j i. ground (arith, h.below j i);
    },
    ground arith,
  )
  step-IsHeld (marks ids) f a h = mark_all ids f h

  run-IsHeld :
      (ops : List FlagOp) (f : Flags)
      → all (is_apart call_id) ops ≡ true
      → IsHeld call_id place f
      → (run f ops).flag place ≡ (f.flag place || any (gives_up call_id) ops)
  unfolding run
  run-IsHeld [] f a h = ground arith
  run-IsHeld (op ∷ ops) f a h =
      let (h', e) = step-IsHeld op f (and_true _ _ a).0 h in
      run-IsHeld ops (step f op) (and_true _ _ a).1 h'
      ∙ ap (λ b. b || any (gives_up call_id) ops) e
      ∙ or_assoc (f.flag place) _ _

-- Whatever the map holds is a place that has been taken.
abbrev IsBelow : Flags → Type 0
IsBelow f = (id : Bytes) (i : ℕ) → f.map id ≡ some i → i < f.next

store_at-IsBelow : (o : Option ℕ) (f : Flags) → IsBelow f → IsBelow (store_at o f)
store_at-IsBelow none f b = b
store_at-IsBelow (some i) f b = b

mark_lost-IsBelow : (ids : List Bytes) (f : Flags) → IsBelow f → IsBelow (mark_lost ids f)
unfolding mark_lost
mark_lost-IsBelow [] f b = b
mark_lost-IsBelow (id ∷ ids) f b =
    mark_lost-IsBelow ids (store_at (f.map id) f) (store_at-IsBelow (f.map id) f b)

step-IsBelow : (op : FlagOp) (f : Flags) → IsBelow f → IsBelow (step f op)
unfolding step register drop_guard
step-IsBelow (registers call_id) f b id i = ground (arith, b id i)
step-IsBelow (drops call_id) f b id i = ground (arith, b id i)
step-IsBelow (marks ids) f b id i = mark_lost-IsBelow ids f b id i

run-IsBelow : (ops : List FlagOp) (f : Flags) → IsBelow f → IsBelow (run f ops)
unfolding run
run-IsBelow [] f b = b
run-IsBelow (op ∷ ops) f b = run-IsBelow ops (step f op) (step-IsBelow op f b)

register-clear : (call_id : Bytes) (f : Flags) → (register call_id f).flag f.next ≡ false
unfolding register
register-clear call_id f = ground arith

register-IsHeld :
    (call_id : Bytes) (f : Flags) → IsBelow f → IsHeld call_id f.next (register call_id f)
unfolding register
register-IsHeld call_id f b = record {
  held = ground (arith, same_refl call_id);
  taken = omega arith;
  apart = λ id. ground (arith, b id f.next, same_iff call_id id, same_iff id call_id);
  below = λ id i. ground (arith, b id i);
}

-- A call that is under way is cancelled exactly if it has been given up since it began: from the
-- moment its guard is registered, whatever other guards are registered and dropped and whatever
-- calls are given up, the guard's flag is set once a list of lost calls has named the call, and not
-- before; as long as the call's own guard is not dropped, and no second one is registered for it.
pub flag_iff :
    (before after : List FlagOp) (call_id : Bytes)
    → all (is_apart call_id) after ≡ true
    → let f = run no_flags before in
      (run (register call_id f) after).flag f.next ≡ any (gives_up call_id) after
flag_iff before after call_id a =
    let f : Flags = run no_flags before in
    let b : IsBelow f = run-IsBelow before no_flags (λ id i. ground arith) in
    run-IsHeld call_id f.next after (register call_id f) a (register-IsHeld call_id f b)
    ∙ ap (λ b. b || any (gives_up call_id) after) (register-clear call_id f)
