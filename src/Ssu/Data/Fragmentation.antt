-- ===== src/Ssu/Data/Fragmentation.antt =====
-- src/core/router/transports/ssu/data.cc: the fragments that Send makes of a message.
pub mod Info
pub mod Cut
pub mod Wire
use xi2p_old.Base.{ℕ, suc, List, [], ◌∷◌, true, false}
use xi2p_old.Ssu.Data.{Fragment}
use xi2p_old.Ssu.Data.Outgoing.{new_fragment}

-- The packets of a message cut into pieces, from a number on.
unfoldable pub packets : ℕ → ℕ → List (List ℕ) → List Fragment
packets msg_id fragment_num [] = []
packets msg_id fragment_num (c ∷ []) = new_fragment msg_id fragment_num true c ∷ []
packets msg_id fragment_num (c ∷ d ∷ cs) =
    new_fragment msg_id fragment_num false c ∷ packets msg_id (suc fragment_num) (d ∷ cs)
