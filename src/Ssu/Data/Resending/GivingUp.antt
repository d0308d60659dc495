-- ===== src/Ssu/Data/Resending/GivingUp.antt =====
-- src/core/router/transports/ssu/data.cc: a sent message that is never acknowledged.
use xi2p_old.Base.{
  lookup, Distinct, ℕ, zero, suc, ◌+◌, ◌*◌, ◌%◌, ◌^◌, ◌≤◌, ◌<◌, ◌≡◌, ◌==◌, inl, inr, refl, ap, ◌∙◌,
  true, false, Option, none, some, List, [], ◌∷◌, length, ltb, leb, if◌then◌else◌, arith,
  Bool-cases, All,
}
use xi2p_old.Ssu.Data.{SentMessage, SsuData, emit}
use xi2p_old.Ssu.Data.Timers.{resent, resend_all, handle_resend_timer}

lookup-resend_all-none :
    (now msg_id : ℕ) (ms : List (ℕ × SentMessage))
    → lookup msg_id ms ≡ none
    → lookup msg_id (resend_all now ms).0 ≡ none
unfolding resend_all lookup
lookup-resend_all-none now msg_id [] h = refl
lookup-resend_all-none now msg_id ((j, m) ∷ ms) h =
    ground (arith, lookup-resend_all-none now msg_id ms)

-- A sent message after the timer: `none` where it is dropped.
abbrev after_timer : ℕ → SentMessage → Option SentMessage
after_timer now m =
    if leb m.next_resend_time now
    then if ltb m.num_resends 5
      then some (record m {
        num_resends = m.num_resends + 1;
        next_resend_time = (m.next_resend_time + (m.num_resends + 1) * 3) % 2 ^ 32;
      })
      else none
    else some m

-- The message that one run of the timer leaves.
lookup-resend_all :
    (now msg_id : ℕ) (m : SentMessage) (ms : List (ℕ × SentMessage))
    → Distinct ms
    → lookup msg_id ms ≡ some m
    → lookup msg_id (resend_all now ms).0 ≡ after_timer now m
unfolding resend_all resent lookup
lookup-resend_all now msg_id m [] d h = absurd (cc)
lookup-resend_all now msg_id m ((j, n) ∷ ms) (e, d) h = elim (Bool-cases (j == msg_id)) [
  | inl t ↦
      let f : j ≡ msg_id = ground arith in
      let same : n ≡ m = ground arith in
      let none_left = lookup-resend_all-none now msg_id ms (rw (← f) e) in
      rw (← same) (ground (arith, none_left))
  | inr g ↦ let ih = lookup-resend_all now msg_id m ms d (ground arith) in ground (arith, ih)
]

resend_all-Distinct :
    (now : ℕ) (ms : List (ℕ × SentMessage)) → Distinct ms → Distinct (resend_all now ms).0
unfolding resend_all resent
resend_all-Distinct now [] d = tt
resend_all-Distinct now ((j, m) ∷ ms) (e, d) =
    let n = lookup-resend_all-none now j ms e in
    let ih = resend_all-Distinct now ms d in
    elim (Bool-cases (leb m.next_resend_time now)) [
      | inl t ↦ elim (Bool-cases (ltb m.num_resends 5)) [
        | inl u ↦ rw (t, u) (n, ih)
        | inr v ↦ rw (t, v) ih
      ]
      | inr f ↦ rw (f) (n, ih)
    ]

-- The sent messages after the timer has fired at the given times.
unfoldable pub resend_tables : List ℕ → List (ℕ × SentMessage) → List (ℕ × SentMessage)
resend_tables [] ms = ms
resend_tables (now ∷ times) ms = resend_tables times (resend_all now ms).0

resend_tables-none :
    (times : List ℕ) (msg_id : ℕ) (ms : List (ℕ × SentMessage))
    → lookup msg_id ms ≡ none
    → lookup msg_id (resend_tables times ms) ≡ none
unfolding resend_tables
resend_tables-none [] msg_id ms h = h
resend_tables-none (now ∷ times) msg_id ms h =
    resend_tables-none times msg_id (resend_all now ms).0 (lookup-resend_all-none now msg_id ms h)

-- The seconds by which the attempts that are left can put off the next one.
abbrev put_off : ℕ → ℕ
put_off zero = 45
put_off (suc zero) = 42
put_off (suc (suc zero)) = 36
put_off (suc (suc (suc zero))) = 27
put_off (suc (suc (suc (suc zero)))) = 15
put_off (suc (suc (suc (suc (suc n))))) = 0

put_off-suc : (n : ℕ) → n < 5 → put_off (suc n) + (n + 1) * 3 ≡ put_off n
put_off-suc zero h = refl
put_off-suc (suc zero) h = refl
put_off-suc (suc (suc zero)) h = refl
put_off-suc (suc (suc (suc zero))) h = refl
put_off-suc (suc (suc (suc (suc zero)))) h = refl
put_off-suc (suc (suc (suc (suc (suc n))))) h = absurd (omega arith)

n_suc : (n : ℕ) → n + 1 ≡ suc n
n_suc n = omega arith

put_off-le : (n : ℕ) → put_off n ≤ 45
put_off-le zero = omega arith
put_off-le (suc zero) = omega arith
put_off-le (suc (suc zero)) = omega arith
put_off-le (suc (suc (suc zero))) = omega arith
put_off-le (suc (suc (suc (suc zero)))) = omega arith
put_off-le (suc (suc (suc (suc (suc n))))) = omega arith

All-weaken : (a b : ℕ) (times : List ℕ) → b ≤ a → All (λ t. a ≤ t) times → All (λ t. b ≤ t) times
All-weaken a b [] h x = tt
All-weaken a b (t ∷ times) h (y, x) = (omega arith, All-weaken a b times h x)

given_up_after :
    (times : List ℕ) (msg_id : ℕ) (m : SentMessage) (ms : List (ℕ × SentMessage))
    → Distinct ms
    → lookup msg_id ms ≡ some m
    → 6 ≤ length times + m.num_resends
    → All (λ t. m.next_resend_time + put_off m.num_resends ≤ t) times
    → 1 ≤ length times
    → lookup msg_id (resend_tables times ms) ≡ none
unfolding resend_tables
given_up_after [] msg_id m ms d e l h p = absurd (omega arith)
given_up_after (now ∷ times) msg_id m ms d e l (x, h) p =
    let after = lookup-resend_all now msg_id m ms d e in
    let due : leb m.next_resend_time now ≡ true = ground (arith, x) in
    elim (Bool-cases (ltb m.num_resends 5)) [
      | inr f ↦ resend_tables-none times msg_id (resend_all now ms).0 (after ∙ rw (due, f) refl)
      | inl t ↦
          let n = m.num_resends in
          let m' : SentMessage = record m {
            num_resends = n + 1;
            next_resend_time = (m.next_resend_time + (n + 1) * 3) % 2 ^ 32;
          } in
          let less = put_off-suc n (ground (arith, t)) in
          given_up_after times msg_id m' (resend_all now ms).0 (resend_all-Distinct now ms d)
            (after ∙ rw (due, t) refl) (omega arith)
            (All-weaken (m.next_resend_time + put_off n) (m'.next_resend_time + put_off (n + 1))
              times (omega (arith, less, ap put_off (n_suc n))) h)
            (ground (arith, t))
    ]

-- The resend timer fires at the given times.
unfoldable pub fire : List ℕ → SsuData → SsuData
unfolding handle_resend_timer
fire [] d = d
fire (now ∷ times) d = fire times (handle_resend_timer false now d)

sent_messages-fire :
    (times : List ℕ) (d : SsuData)
    → (fire times d).sent_messages ≡ resend_tables times d.sent_messages
unfolding fire resend_tables handle_resend_timer emit
sent_messages-fire [] d = refl
sent_messages-fire (now ∷ times) d = sent_messages-fire times (handle_resend_timer false now d)

-- A sent message that is not acknowledged is given up: among sent messages of different ids, when
-- the resend timer has fired six times or more, each at least 45 seconds behind the time that was
-- set for the next attempt before the first of them, the message is no longer among the sent ones.
pub fire-given_up :
    (times : List ℕ) (msg_id : ℕ) (m : SentMessage) (d : SsuData)
    → Distinct d.sent_messages
    → lookup msg_id d.sent_messages ≡ some m
    → 6 ≤ length times
    → All (λ t. m.next_resend_time + 45 ≤ t) times
    → lookup msg_id (fire times d).sent_messages ≡ none
fire-given_up times msg_id m d distinct e l h =
    ap (lookup msg_id) (sent_messages-fire times d)
    ∙ given_up_after times msg_id m d.sent_messages distinct e (omega arith)
        (All-weaken (m.next_resend_time + 45) (m.next_resend_time + put_off m.num_resends) times
          (omega (arith, put_off-le m.num_resends)) h)
        (omega arith)
