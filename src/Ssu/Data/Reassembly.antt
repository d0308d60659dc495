-- ===== src/Ssu/Data/Reassembly.antt =====
-- src/core/router/transports/ssu/data.cc: the fragments of one message against the message they were
-- cut from.
pub mod Saved
pub mod Arrival
pub mod Run
use xi2p_old.Base.{
  ℕ, zero, suc, ◌+◌, ◌==◌, ◌≤◌, ◌<◌, ◌≡◌, ◌⊎◌, Bool, true, false, List, [], ◌∷◌, ◌++◌, map, length,
  replicate, if◌then◌else◌, Result, ok, err,
}
use xi2p_old.I2np.{Message}
use xi2p_old.Ssu.Data.{Fragment, IncompleteMessage, contains}
use xi2p_old.Ssu.Data.Incoming.{receive_fragment}

-- Piece i of a message.
unfoldable pub piece : List (List ℕ) → ℕ → List ℕ
piece [] i = []
piece (c ∷ cs) zero = c
piece (c ∷ cs) (suc i) = piece cs i

unfoldable pub join : List (List ℕ) → List ℕ
join [] = []
join (c ∷ cs) = c ++ join cs

-- The fragment that carries piece i.
unfoldable pub fragment_of : List (List ℕ) → ℕ → Fragment
fragment_of cs i = record {
  fragment_num = i;
  len = length (piece cs i);
  is_last = suc i == length cs;
  buffer = piece cs i;
}

-- Fragments received one after the other, each with its time and its number, up to completion.
unfoldable pub receive_all :
    List (List ℕ) → List (ℕ × ℕ) → IncompleteMessage → Result (Bool × IncompleteMessage)
receive_all cs [] m = ok (false, m)
receive_all cs ((now, i) ∷ arrivals) m = elim (receive_fragment now (fragment_of cs i) m) [
  | ok (true, m') ↦ ok (true, m')
  | ok (false, m') ↦ receive_all cs arrivals m'
  | err e ↦ err e
]

unfoldable pub arrived : ℕ → List (ℕ × ℕ) → Bool
arrived i [] = false
arrived i ((now, j) ∷ arrivals) = if j == i then true else arrived i arrivals

-- Every arrival is a piece of the message.
abbrev pub ArePieces : List (List ℕ) → List (ℕ × ℕ) → Type 0
ArePieces cs [] = Unit
ArePieces cs ((now, i) ∷ arrivals) = (i < length cs) × ArePieces cs arrivals

-- The message with n pieces joined and the pieces `saved` put by.
abbrev pub buffer : ℕ → List ℕ → Message
buffer capacity xs = record {
  bytes = replicate 13 0 ++ xs;
  offset = 2;
  max_len = 4096;
  capacity = capacity;
}

abbrev pub HasRoom : ℕ → Type 0
HasRoom capacity = (capacity ≡ 4112) ⊎ (capacity ≡ 32784)

-- Numbers in ascending order from `low` to below `high`.
abbrev pub Ascending : ℕ → ℕ → List ℕ → Type 0
Ascending low high [] = Unit
Ascending low high (i ∷ is) = (low ≤ i) × (i < high) × Ascending (suc i) high is

-- Piece j is joined already, or put by.
abbrev pub Held : ℕ → List ℕ → ℕ → Type 0
Held n saved j = (j < n) ⊎ (contains j saved ≡ true)
