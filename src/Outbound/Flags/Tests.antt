-- ===== src/Outbound/Flags/Tests.antt =====
-- Two calls under way, one of them given up.
use allgres.Base.{[], ◌∷◌, ◌≡◌, refl, any}
use allgres.Bytes.{lit}
use allgres.Bytes.Compare.{same}
use allgres.Outbound.Flags.{no_flags, register, registers, drops, marks, run}
use allgres.Outbound.Flags.Marks.{gives_up, flag_iff}

flag_iff_example :
    (run
        (register (lit "b") (run no_flags (registers (lit "a") ∷ [])))
        (marks (lit "a" ∷ []) ∷ drops (lit "a") ∷ marks (lit "c" ∷ lit "b" ∷ []) ∷ [])).flag
      (run no_flags (registers (lit "a") ∷ [])).next
    ≡ any
        (gives_up (lit "b"))
        (marks (lit "a" ∷ []) ∷ drops (lit "a") ∷ marks (lit "c" ∷ lit "b" ∷ []) ∷ [])
unfolding same
flag_iff_example =
    flag_iff (registers (lit "a") ∷ [])
      (marks (lit "a" ∷ []) ∷ drops (lit "a") ∷ marks (lit "c" ∷ lit "b" ∷ []) ∷ []) (lit "b") refl
