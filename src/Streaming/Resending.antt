-- ===== src/Streaming/Resending.antt =====
-- src/client/api/streaming.cc: a stream whose packets are not acknowledged ends.
use mathlib.Core.Path.{subst}
use xi2p_old.Base.{
  ℕ, zero, suc, ◌+◌, ◌*◌, ◌≤◌, ◌<◌, ◌≡◌, ◌≢◌, ◌⊎◌, refl, sym, ap, ◌∙◌, inl, inr, true, false,
  Bool-cases, List, [], ◌∷◌, ◌++◌, map, All, arith, leb,
}
use xi2p_old.Streaming.{Packet, Event, Stream, reset, Owner, emit, delete_stream, schedule_resend}
use xi2p_old.Streaming.Sending.{close, close_at, leave, terminate, send_close, send_packets}
use xi2p_old.Streaming.Timers.{is_due, due_packets, renewed, try_other, resend, handle_resend_timer}

-- The timer fires n times, each time after the interval for which the last handler has set it.
unfoldable pub fire : ℕ → Owner → ℕ → Stream → Stream
unfolding handle_resend_timer
fire zero o ts s = s
fire (suc n) o ts s = let s' = handle_resend_timer false o ts s in fire n o (ts + s'.rto) s'

-- Every sent packet is due at time ts.
abbrev pub AllDue : ℕ → ℕ → List Packet → Type 0
AllDue ts rto ps = All (λ p. p.send_time + rto ≤ ts) ps

renewed_time : ℕ → Packet → Packet
renewed_time ts p = record p { send_time = ts }

leb_of_le : (a b : ℕ) → a ≤ b → leb a b ≡ true
leb_of_le a b h = ground arith

due_packets-AllDue :
    (ts rto : ℕ) (ps : List Packet)
    → AllDue ts rto ps
    → due_packets ts rto ps ≡ map (renewed_time ts) ps
unfolding due_packets renewed_time is_due
due_packets-AllDue ts rto [] h = refl
due_packets-AllDue ts rto (p ∷ ps) (d, h) =
    rw (leb_of_le (p.send_time + rto) ts d)
      (ap (◌∷◌ (renewed_time ts p)) (due_packets-AllDue ts rto ps h))

renewed-AllDue :
    (ts rto : ℕ) (ps : List Packet)
    → AllDue ts rto ps
    → renewed ts rto ps ≡ map (renewed_time ts) ps
unfolding renewed renewed_time is_due
renewed-AllDue ts rto [] h = refl
renewed-AllDue ts rto (p ∷ ps) (d, h) =
    rw (leb_of_le (p.send_time + rto) ts d)
      (ap (◌∷◌ (renewed_time ts p)) (renewed-AllDue ts rto ps h))

AllDue-renewed : (ts rto : ℕ) (ps : List Packet) → AllDue (ts + rto) rto (map (renewed_time ts) ps)
unfolding renewed_time
AllDue-renewed ts rto [] = tt
AllDue-renewed ts rto (p ∷ ps) = (omega arith, AllDue-renewed ts rto ps)

-- What resending leaves alone, and what it counts.
record Counted (attempts : ℕ) (sent : List Packet) (s : Stream) : Type 0 where
  attempts_made : s.num_resend_attempts ≡ attempts
  sent_packets : s.sent_packets ≡ sent

try_other-Counted :
    (n attempts : ℕ) (sent : List Packet) (s : Stream)
    → Counted attempts sent s
    → Counted attempts sent (try_other n s)
unfolding try_other
try_other-Counted zero a l s c = c
try_other-Counted (suc zero) a l s c = record {
  attempts_made = c.attempts_made;
  sent_packets = c.sent_packets;
}
try_other-Counted (suc (suc zero)) a l s c = record {
  attempts_made = c.attempts_made;
  sent_packets = c.sent_packets;
}
try_other-Counted (suc (suc (suc zero))) a l s c = record {
  attempts_made = c.attempts_made;
  sent_packets = c.sent_packets;
}
try_other-Counted (suc (suc (suc (suc zero)))) a l s c = record {
  attempts_made = c.attempts_made;
  sent_packets = c.sent_packets;
}
try_other-Counted (suc (suc (suc (suc (suc n))))) a l s c = c

send_packets-Counted :
    (ps : List Packet) (attempts : ℕ) (sent : List Packet) (s : Stream)
    → Counted attempts sent s
    → Counted attempts sent (send_packets ps s)
unfolding send_packets
send_packets-Counted ps a l s c = elim (Bool-cases s.is_reachable) [
  | inl t ↦ record { attempts_made = rw (t) c.attempts_made; sent_packets = rw (t) c.sent_packets }
  | inr f ↦ record { attempts_made = rw (f) c.attempts_made; sent_packets = rw (f) c.sent_packets }
]

resend-Counted :
    (p : Packet) (ps : List Packet) (s : Stream)
    → Counted (suc s.num_resend_attempts) s.sent_packets (resend (p ∷ ps) s)
unfolding resend
resend-Counted p ps s =
    let n = suc s.num_resend_attempts in
    let s1 : Stream = record s { num_resend_attempts = n; rto = s.rto * 2 } in
    send_packets-Counted (p ∷ ps) n s.sent_packets (try_other n s1) (
      try_other-Counted n n s.sent_packets s1
        (record { attempts_made = refl; sent_packets = refl }))

sent_cases : (l : List Packet) → (l ≡ []) ⊎ ((p : Packet) × (ps : List Packet) × (l ≡ p ∷ ps))
sent_cases [] = inl refl
sent_cases (p ∷ ps) = inr (p, ps, refl)

-- The timer fires when all packets are due, and there is one.
record Fires (ts : ℕ) (s : Stream) : Type 0 where
  first : Packet
  others : List Packet
  sent : s.sent_packets ≡ first ∷ others
  due : AllDue ts s.rto (first ∷ others)

below_limit : (n : ℕ) → n < 6 → leb 6 n ≡ false
below_limit n h = ground arith

handle_resend_timer-Fires :
    (o : Owner) (ts : ℕ) (s : Stream)
    → s.num_resend_attempts < 6
    → Fires ts s
    → ((handle_resend_timer false o ts s).num_resend_attempts ≡ suc s.num_resend_attempts)
      × Fires (ts + (handle_resend_timer false o ts s).rto) (handle_resend_timer false o ts s)
unfolding handle_resend_timer emit
handle_resend_timer-Fires o ts s l f =
    let ps = f.first ∷ f.others in
    let s1 : Stream = record s { sent_packets = map (renewed_time ts) ps } in
    let qs = map (renewed_time ts) f.others in
    let s2 = resend (renewed_time ts f.first ∷ qs) s1 in
    let c = resend-Counted (renewed_time ts f.first) qs s1 in
    let due : due_packets ts s.rto s.sent_packets ≡ map (renewed_time ts) ps =
      ap (due_packets ts s.rto) f.sent ∙ due_packets-AllDue ts s.rto ps f.due in
    let new_times : renewed ts s.rto s.sent_packets ≡ map (renewed_time ts) ps =
      ap (renewed ts s.rto) f.sent ∙ renewed-AllDue ts s.rto ps f.due in
    let fired : handle_resend_timer false o ts s ≡ emit (schedule_resend s2.rto) s2 =
      rw (below_limit s.num_resend_attempts l, due, new_times) refl in
    subst (λ x. (x.num_resend_attempts ≡ suc s.num_resend_attempts) × Fires (ts + x.rto) x)
      (sym fired)
      (
        c.attempts_made,
        record {
          first = renewed_time ts f.first;
          others = qs;
          sent = c.sent_packets;
          due = AllDue-renewed ts s2.rto ps;
        },
      )

status_left : (s : Stream) → (leave s).status ≡ s.status
unfolding leave terminate
status_left s = ground arith

-- The stream has ended: it was reset, and the last that it asked for is that it is deleted.
pub record Ended (s : Stream) : Type 0 where
  pub status : s.status ≡ reset
  pub before : List Event
  pub deleted : s.events ≡ before ++ delete_stream ∷ []

close-Ended : (o : Owner) (s : Stream) → Ended (close o (record s { status = reset }))
unfolding close close_at leave send_close emit
close-Ended o s = record {
  status = status_left (send_close o (record s { status = reset }));
  before = (terminate (send_close o (record s { status = reset }))).events;
  deleted = refl;
}

fire-Ended_from :
    (left : ℕ) (o : Owner) (ts : ℕ) (s : Stream)
    → s.num_resend_attempts + left ≡ 6
    → Fires ts s
    → Ended (fire (suc left) o ts s)
unfolding fire handle_resend_timer
fire-Ended_from zero o ts s e f =
    let limit : leb 6 s.num_resend_attempts ≡ true =
      leb_of_le 6 s.num_resend_attempts (omega arith) in
    rw (limit) (close-Ended o s)
fire-Ended_from (suc left) o ts s e f =
    let (n, g) = handle_resend_timer-Fires o ts s (omega arith) f in
    let s' = handle_resend_timer false o ts s in
    fire-Ended_from left o (ts + s'.rto) s' (omega arith) g

-- A stream on which no packet has been sent again, with packets that are all due: when the timer
-- has fired seven times, each time after the interval that was set, and no acknowledgement has come
-- meanwhile, the stream is reset and deleted.
pub fire-Ended :
    (o : Owner) (ts : ℕ) (s : Stream)
    → s.num_resend_attempts ≡ 0
    → s.sent_packets ≢ []
    → AllDue ts s.rto s.sent_packets
    → Ended (fire 7 o ts s)
fire-Ended o ts s z n d = elim (sent_cases s.sent_packets) [
  | inl e ↦ absurd (n e)
  | inr (p, ps, e) ↦
      fire-Ended_from 6 o ts s (omega arith)
        (record { first = p; others = ps; sent = e; due = subst (AllDue ts s.rto) e d })
]
