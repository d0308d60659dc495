-- ===== src/Ssu/Data/Resending.antt =====
-- src/core/router/transports/ssu/data.cc: the resend timer over the sent messages, and the cleanup timer
-- over the incomplete ones.
pub mod Acknowledged
pub mod GivingUp
use xi2p_old.Base.{
  lookup, Distinct, ℕ, zero, suc, ◌+◌, ◌-◌, ◌*◌, ◌%◌, ◌^◌, ◌≤◌, ◌<◌, ◌≡◌, ◌≢◌, ◌==◌, inl, inr, refl,
  Bool, true, false, Option, none, some, List, [], ◌∷◌, ◌++◌, length, length-append, ltb, leb,
  if◌then◌else◌, arith, Bool-cases,
}
use xi2p_old.Ssu.Data.{
  Fragment, IncompleteMessage, SentMessage, Event, SsuData, emit, max_resends, cleanup_timeout,
}
use xi2p_old.Ssu.Data.Timers.{
  resends, resent, resend_all, handle_resend_timer, drop_stale, handle_cleanup_timer,
}

-- The packets that a message may still send again.
abbrev pub allowance : List (ℕ × SentMessage) → ℕ
allowance [] = 0
allowance ((msg_id, m) ∷ ms) = (max_resends - m.num_resends) * length m.fragments + allowance ms

length-resends : (fs : List (Option Fragment)) → length (resends fs) ≤ length fs
unfolding resends
length-resends [] = omega arith
length-resends (none ∷ fs) = omega (arith, length-resends fs)
length-resends (some f ∷ fs) = omega (arith, length-resends fs)

-- One attempt fewer, one set of fragments less.
attempt : (r n : ℕ) → r < 5 → (5 - r) * n ≡ n + (5 - suc r) * n
attempt zero n h = omega arith
attempt (suc zero) n h = omega arith
attempt (suc (suc zero)) n h = omega arith
attempt (suc (suc (suc zero))) n h = omega arith
attempt (suc (suc (suc (suc zero)))) n h = omega arith
attempt (suc (suc (suc (suc (suc r))))) n h = absurd (omega arith)

-- What the timer sends is taken from the allowance.
resend_all-allowance :
    (now : ℕ) (ms : List (ℕ × SentMessage))
    → length (resend_all now ms).1 + allowance (resend_all now ms).0 ≤ allowance ms
unfolding resend_all resent
resend_all-allowance now [] = omega arith
resend_all-allowance now ((msg_id, m) ∷ ms) =
    let ih = resend_all-allowance now ms in
    let l = length-resends m.fragments in
    let a = length-append (resends m.fragments) (resend_all now ms).1 in
    elim (Bool-cases (leb m.next_resend_time now)) [
      | inr f ↦ ground (arith, ih)
      | inl t ↦ elim (Bool-cases (ltb m.num_resends 5)) [
        | inr f ↦ ground (arith, ih)
        | inl u ↦
            let c = attempt m.num_resends (length m.fragments) (ground arith) in
            ground (arith, ih, l, a, c)
      ]
    ]

-- The packets that the timer sends at the given times.
unfoldable pub resend_runs : List ℕ → List (ℕ × SentMessage) → List Event
resend_runs [] ms = []
resend_runs (now ∷ times) ms = (resend_all now ms).1 ++ resend_runs times (resend_all now ms).0

-- However often and whenever the resend timer fires, the packets that it sends for the messages
-- sent so far are no more than their fragments times the attempts that each message has left of
-- its five.
pub resend_runs-allowance :
    (times : List ℕ) (ms : List (ℕ × SentMessage)) → length (resend_runs times ms) ≤ allowance ms
unfolding resend_runs
resend_runs-allowance [] ms = omega arith
resend_runs-allowance (now ∷ times) ms = omega (
  arith,
  resend_all-allowance now ms,
  resend_runs-allowance times (resend_all now ms).0,
  length-append (resend_all now ms).1 (resend_runs times (resend_all now ms).0),
)
