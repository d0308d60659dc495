-- ===== src/Ssu/Data/Reassembly/Arrival.antt =====
-- src/core/router/transports/ssu/data.cc: one fragment attached, the saved ones drained, and a whole
-- run of arrivals.
use xi2p_old.Base.{
  ℕ, zero, suc, ◌%◌, ◌^◌, ◌+◌, ◌==◌, ◌≤◌, ◌<◌, ◌≡◌, ◌⊎◌, ◌↔◌, inl, inr, refl, sym, ap, ◌∙◌, Bool,
  false, List, [], ◌∷◌, ◌++◌, map, length, take, length-append, ltb, Result, ok, arith, Bool-cases,
}
use mathlib.Core.List.{append_assoc, append-nil}
use xi2p_old.I2np.{new_buffer, assign, append_data, get_length, get_buffer}
use xi2p_old.Ssu.Data.{IncompleteMessage, contains}
use xi2p_old.Ssu.Data.Incoming.{
  enlarge, attach_data, attach_next_fragment, attach_saved, save_fragment, receive_fragment,
}
use xi2p_old.Ssu.Data.Reassembly.{piece, join, fragment_of, buffer, HasRoom, Ascending, Held}
use xi2p_old.Ssu.Data.Reassembly.Saved.{less, same, more, compare_cases, insert_saved_cases}

join-take-suc :
    (n : ℕ) (cs : List (List ℕ)) → join (take (suc n) cs) ≡ join (take n cs) ++ piece cs n
unfolding join piece
join-take-suc zero [] = refl
join-take-suc (suc n) [] = refl
join-take-suc zero (c ∷ cs) = append-nil c
join-take-suc (suc n) (c ∷ cs) =
    ap (◌++◌ c) (join-take-suc n cs) ∙ sym (append_assoc c (join (take n cs)) (piece cs n))

length-join-take : (n : ℕ) (cs : List (List ℕ)) → length (join (take n cs)) ≤ length (join cs)
unfolding join
length-join-take zero cs = omega arith
length-join-take (suc n) [] = omega arith
length-join-take (suc n) (c ∷ cs) =
    omega
      (arith, length-join-take n cs, length-append c (join (take n cs)), length-append c (join cs))

-- A fragment that fits the largest buffer is appended, whichever buffer the message has.
attach_data_lem :
    (capacity : ℕ) (xs c : List ℕ)
    → HasRoom capacity
    → 13 + length (xs ++ c) ≤ 32784
    → (k : ℕ) × HasRoom k × (attach_data c (buffer capacity xs) ≡ ok (buffer k (xs ++ c)))
unfolding attach_data enlarge new_buffer assign append_data get_length get_buffer
attach_data_lem capacity xs c (inl e) h =
    elim (Bool-cases (ltb 4096 (length (buffer capacity xs).bytes + length c))) [
      | inl t ↦ (32784, inr refl, ground (arith, length-append xs c))
      | inr f ↦ (capacity, inl e, ground (arith, length-append xs c))
    ]
attach_data_lem capacity xs c (inr e) h =
    elim (Bool-cases (ltb 4096 (length (buffer capacity xs).bytes + length c))) [
      | inl t ↦ (32784, inr refl, ground (arith, length-append xs c))
      | inr f ↦ (capacity, inr e, ground (arith, length-append xs c))
    ]

-- A message of the pieces `cs`, the first n of them joined and those numbered `saved` put by.
abbrev pub partial : List (List ℕ) → ℕ → ℕ → ℕ → List ℕ → IncompleteMessage
partial cs capacity n time saved = record {
  msg = buffer capacity (join (take n cs));
  next_fragment_num = n;
  last_fragment_insert_time = time;
  saved_fragments = map (fragment_of cs) saved;
}

-- What a step leaves: further on by a number of pieces, complete exactly at the last one, with the
-- pieces of `Before` held and no others.
pub record Progress (cs : List (List ℕ)) (Before : ℕ → Type 0)
    (r : Result (Bool × IncompleteMessage)) : Type 0 where
  pub capacity : ℕ
  pub at : ℕ
  pub time : ℕ
  pub saved : List ℕ
  pub has_room : HasRoom capacity
  pub at_most : at ≤ length cs
  pub ordered : Ascending (suc at) (length cs) saved
  pub result : r ≡ ok (at == length cs, partial cs capacity at time saved)
  pub holds : (j : ℕ) → Held at saved j ↔ Before j

attach_piece :
    (cs : List (List ℕ)) (capacity n time : ℕ) (saved : List ℕ)
    → HasRoom capacity
    → 13 + length (join cs) ≤ 32784
    → (k : ℕ) × HasRoom k
      × (attach_next_fragment (piece cs n) (partial cs capacity n time saved)
          ≡ ok (partial cs k (suc n) time saved))
unfolding attach_next_fragment
attach_piece cs capacity n time saved r h =
    let e = join-take-suc n cs in
    let (k, q, a) =
      attach_data_lem capacity (join (take n cs)) (piece cs n) r
        (omega (arith, length-join-take (suc n) cs, ap length e)) in
    let b : attach_data (piece cs n) (buffer capacity (join (take n cs)))
        ≡ ok (buffer k (join (take (suc n) cs))) =
      rw e a in
    (k, q, ground (arith, b))

attach_saved-Progress :
    (cs : List (List ℕ)) (capacity n time : ℕ) (saved all : List ℕ)
    → HasRoom capacity
    → n ≤ length cs
    → Ascending n (length cs) saved
    → 13 + length (join cs) ≤ 32784
    → Progress cs (Held n saved) (
        attach_saved (map (fragment_of cs) saved) (n == length cs) (partial cs capacity n time all))
unfolding attach_saved contains fragment_of
attach_saved-Progress cs capacity n time [] all r p a h = record {
  capacity = capacity;
  at = n;
  time = time;
  saved = [];
  has_room = r;
  at_most = p;
  ordered = tt;
  result = refl;
  holds = λ j. ground arith;
}
attach_saved-Progress cs capacity n time (i ∷ is) all r p (q, s, a) h = elim (Bool-cases (i == n)) [
  | inl t ↦
      let e : i ≡ n = ground arith in
      let (k, u, b) = attach_piece cs capacity n time all r h in
      let next = attach_saved-Progress cs k (suc n) time is all u (omega arith) (rw (← e) a) h in
      record {
        capacity = next.capacity;
        at = next.at;
        time = next.time;
        saved = next.saved;
        has_room = next.has_room;
        at_most = next.at_most;
        ordered = next.ordered;
        result = ground (arith, b, next.result);
        holds = λ j. ground (arith, next.holds j);
      }
  | inr f ↦ record {
    capacity = capacity;
    at = n;
    time = time;
    saved = i ∷ is;
    has_room = r;
    at_most = p;
    ordered = (ground arith, s, a);
    result = ground arith;
    holds = λ j. ground arith;
  }
]

-- Nothing is put by behind the last piece.
Ascending-top : (low high : ℕ) (is : List ℕ) → high ≤ low → Ascending low high is → is ≡ []
Ascending-top low high [] h a = refl
Ascending-top low high (i ∷ is) h (p, q, a) = absurd (omega arith)

-- A fragment that is held already changes nothing.
unchanged-Progress :
    (cs : List (List ℕ)) (capacity n time i : ℕ) (saved : List ℕ)
    (r : Result (Bool × IncompleteMessage))
    → HasRoom capacity
    → n < length cs
    → Ascending (suc n) (length cs) saved
    → Held n saved i
    → r ≡ ok (false, partial cs capacity n time saved)
    → Progress cs (λ j. Held n saved j ⊎ (j ≡ i)) r
unfolding contains
unchanged-Progress cs capacity n time i saved r room p a held e = record {
  capacity = capacity;
  at = n;
  time = time;
  saved = saved;
  has_room = room;
  at_most = omega arith;
  ordered = a;
  result = ground (arith, e);
  holds = λ j. ground arith;
}

-- The expected fragment is attached, and the saved ones that follow it.
expected-Progress :
    (cs : List (List ℕ)) (capacity n time now i : ℕ) (saved : List ℕ)
    → HasRoom capacity
    → n < length cs
    → i ≡ n
    → Ascending (suc n) (length cs) saved
    → 13 + length (join cs) ≤ 32784
    → Progress cs
        (λ j. Held n saved j ⊎ (j ≡ i))
        (receive_fragment now (fragment_of cs i) (partial cs capacity n time saved))
unfolding receive_fragment fragment_of contains
expected-Progress cs capacity n time now i saved r p e a h =
    let (k, u, b) = attach_piece cs capacity n time saved r h in
    elim (Bool-cases (suc i == length cs)) [
      | inl l ↦ record {
        capacity = k;
        at = suc n;
        time = time;
        saved = saved;
        has_room = u;
        at_most = p;
        ordered = rw (Ascending-top (suc n) (length cs) saved (ground arith) a) tt;
        result = ground (arith, b);
        holds = λ j. ground arith;
      }
      | inr l ↦
          let next = attach_saved-Progress cs k (suc n) time saved saved u p a h in
          record {
            capacity = next.capacity;
            at = next.at;
            time = next.time;
            saved = next.saved;
            has_room = next.has_room;
            at_most = next.at_most;
            ordered = next.ordered;
            result = ground (arith, b, next.result);
            holds = λ j. ground (arith, next.holds j);
          }
    ]

pub receive_fragment-Progress :
    (cs : List (List ℕ)) (capacity n time now i : ℕ) (saved : List ℕ)
    → HasRoom capacity
    → n < length cs
    → i < length cs
    → Ascending (suc n) (length cs) saved
    → 13 + length (join cs) ≤ 32784
    → Progress cs
        (λ j. Held n saved j ⊎ (j ≡ i))
        (receive_fragment now (fragment_of cs i) (partial cs capacity n time saved))
unfolding receive_fragment fragment_of save_fragment contains
receive_fragment-Progress cs capacity n time now i saved r p q a h = elim (compare_cases i n) [
  | same e ↦ expected-Progress cs capacity n time now i saved r p e a h
  | less l ↦ unchanged-Progress cs capacity n time i saved _ r p a (inl l) (ground arith)
  | more l ↦ elim (insert_saved_cases cs (suc n) (length cs) i saved l q a) [
    | inl (e, c) ↦ unchanged-Progress cs capacity n time i saved _ r p a (inr c) (ground (arith, e))
    | inr (js, e, b, c) ↦ record {
      capacity = capacity;
      at = n;
      time = now % 2 ^ 32;
      saved = js;
      has_room = r;
      at_most = omega arith;
      ordered = b;
      result = ground (arith, e);
      holds = λ j. ground (arith, c j);
    }
  ]
]
