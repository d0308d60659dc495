-- ===== src/Tunnel/Endpoint/Termination.antt =====
-- src/core/router/tunnel/endpoint.cc: the loop of HandleDecryptedTunnelDataMsg comes to its end.
use mathlib.Core.Path.{fun_ext}
use xi2p_old.Base.{
  ℕ, zero, suc, ◌+◌, ◌-◌, ◌/◌, ◌%◌, if◌then◌else◌, ◌≤◌, ◌≡◌, inl, inr, refl, sym, ap, List, Bool,
  Bool-cases, ltb, bit, false, drop, Result, ok, err, arith,
}
use xi2p_old.ByteStream.{read_at}
use xi2p_old.I2np.{Message}
use xi2p_old.Tunnel.{Target, type_of_code}
use xi2p_old.Tunnel.Endpoint.{Endpoint}
use xi2p_old.Tunnel.Endpoint.Received.{
  read_header, read_target, first_header, follow_on_header, fragment_data, handle_fragment,
  process_fragments,
}

len-first_header_pos : (b : Bool) (s : List ℕ) (t : Target × ℕ) → 1 ≤ (first_header b s t).len
unfolding first_header
len-first_header_pos b s (t, n) = omega arith

len-read_header_pos : (s : List ℕ) → 1 ≤ (read_header s).len
unfolding read_header follow_on_header
len-read_header_pos s =
    let flag = read_at 1 s in
    let others = read_target (type_of_code (flag / 32 % 4)) (drop 1 s) in
    elim (Bool-cases (bit 7 flag)) [
      | inl t ↦ rw (t) (omega arith)
      | inr f ↦ rw (f) (len-first_header_pos (bit 3 flag) (drop 1 s) others)
    ]

module _ (ours : List ℕ) where
  process_fragments-stop :
      (fuel : ℕ) (array : List ℕ) (end at : ℕ) (msg : Message) (e : Endpoint)
      → end ≤ at
      → process_fragments ours fuel array end at msg e ≡ ok (tt, e)
  unfolding process_fragments
  process_fragments-stop zero array end at msg e l = refl
  process_fragments-stop (suc fuel) array end at msg e l =
      let done : ltb at end ≡ false = ground arith in rw (done, process_fragments) refl

  -- The loop over the fragments of a tunnel data message, whatever bytes there are and whatever the
  -- endpoint holds, takes no more turns than there are bytes up to the end: any two numbers of turns
  -- that are at least as many give the same result and the same endpoint.
  pub process_fragments-turns :
      (fuel more : ℕ) (array : List ℕ) (end at : ℕ) (msg : Message) (e : Endpoint)
      → end - at ≤ fuel
      → end - at ≤ more
      → process_fragments ours more array end at msg e
        ≡ process_fragments ours fuel array end at msg e
  unfolding process_fragments
  process_fragments-turns zero more array end at msg e l k =
      process_fragments-stop more array end at msg e (omega arith)
  process_fragments-turns (suc fuel) zero array end at msg e l k =
      sym (process_fragments-stop (suc fuel) array end at msg e (omega arith))
  process_fragments-turns (suc fuel) (suc more) array end at msg e l k =
      let h = read_header (drop at array) in
      let read = len-read_header_pos (drop at array) in
      let next = at + h.len + h.size in
      ap
        (λ (go : Endpoint → Result (Unit {0} × Endpoint)).
          if ltb at end
          then elim (fragment_data array end (at + h.len) h.size msg) [
            | err x ↦ err x
            | ok m ↦ elim (handle_fragment ours h m e) [ err x ↦ err x | ok (_, e') ↦ go e' ]
          ]
          else ok (tt, e))
        (fun_ext (λ e'.
          process_fragments-turns fuel more array end next msg e' (omega (arith, read))
            (omega (arith, read))))
