-- ===== src/Ssu/Data/Reassembly/Saved.antt =====
-- src/core/router/transports/ssu/data.cc: the set of saved fragments, by the numbers in it.
use xi2p_old.Base.{
  ℕ, zero, suc, ◌≤◌, ◌<◌, ◌≡◌, ◌⊎◌, ◌↔◌, inl, inr, refl, ap, true, none, some, List, [], ◌∷◌, map,
  arith,
}
use xi2p_old.Ssu.Data.{contains}
use xi2p_old.Ssu.Data.Incoming.{insert_saved}
use xi2p_old.Ssu.Data.Reassembly.{fragment_of, Ascending}

pub contains-Ascending :
    (j low high : ℕ) (is : List ℕ)
    → Ascending low high is
    → contains j is ≡ true
    → (low ≤ j) × (j < high)
unfolding contains
contains-Ascending j low high [] a h = absurd (cc)
contains-Ascending j low high (i ∷ is) (p, q, a) h =
    ground (arith, contains-Ascending j (suc i) high is a)

-- The three ways two numbers compare.
pub data Comparison (i k : ℕ) : Type 0 where
  less : i < k → Comparison i k
  same : i ≡ k → Comparison i k
  more : k < i → Comparison i k

pub compare_cases : (i k : ℕ) → Comparison i k
compare_cases zero zero = same refl
compare_cases zero (suc k) = less (omega arith)
compare_cases (suc i) zero = more (omega arith)
compare_cases (suc i) (suc k) = elim (compare_cases i k) [
  | less h ↦ less (omega arith)
  | same h ↦ same (ap suc h)
  | more h ↦ more (omega arith)
]

-- What an insertion of number i makes of the saved fragments `is`.
abbrev pub Inserts : List (List ℕ) → ℕ → ℕ → ℕ → List ℕ → Type 0
Inserts cs low high i is =
    ((insert_saved (fragment_of cs i) (map (fragment_of cs) is) ≡ none) × (contains i is ≡ true))
    ⊎ ((js : List ℕ) × (insert_saved (fragment_of cs i) (map (fragment_of cs) is)
          ≡ some (map (fragment_of cs) js))
        × Ascending low high js
        × ((j : ℕ) → (contains j js ≡ true) ↔ ((contains j is ≡ true) ⊎ (j ≡ i))))

pub insert_saved_cases :
    (cs : List (List ℕ)) (low high i : ℕ) (is : List ℕ)
    → low ≤ i
    → i < high
    → Ascending low high is
    → Inserts cs low high i is
unfolding contains insert_saved fragment_of
insert_saved_cases cs low high i [] p q a = inr (i ∷ [], refl, (p, q, tt), λ j. ground arith)
insert_saved_cases cs low high i (k ∷ is) p q (r, s, a) = elim (compare_cases i k) [
  | less h ↦ inr (i ∷ k ∷ is, ground arith, (p, q, (h, s, a)), λ j. ground arith)
  | same h ↦ inl (ground arith, ground arith)
  | more h ↦ elim (insert_saved_cases cs (suc k) high i is h q a) [
    | inl (e, c) ↦ inl (ground arith, ground arith)
    | inr (js, e, b, c) ↦ inr (k ∷ js, ground arith, (r, s, b), λ j. ground (arith, c j))
  ]
]
