-- ===== src/ByteStream/Codec.antt =====
-- A writer and a reader that agree on a byte string, and how they compose.
use mathlib.Core.List.{append_assoc, append-nil}
use xi2p_old.Base.{
  ℕ, ◌+◌, ◌-◌, ◌^◌, ◌≤◌, ◌<◌, ◌≡◌, ◌∙◌, List, [], ◌++◌, some, ok, length, Method, ◌>>=◌, ◌>>◌, pure,
  lift, Result, length-append, take_all, replicate, length-replicate, arith, false,
}
use xi2p_old.ByteStream.{Input, Output, to_big, read_bytes, read, write, write_data, skip_output}
use xi2p_old.ByteStream.Bounds.{write_data_ok}
use xi2p_old.ByteStream.Words.{length-to_big, from_big-to_big, read_bytes-append}

-- w appends bs to any stream that has room for it.
pub record Writes (w : Method Output (Unit {0})) (bs : List ℕ) : Type 0 where
  pub on :
      (o : Output)
      → length bs ≤ o.remaining
      → w o ≡ ok (tt, record { written = o.written ++ bs; remaining = o.remaining - length bs })

-- p takes bs off any stream that begins with it, and returns a.
pub record Reads {A : Type 0} (p : Method Input A) (bs : List ℕ) (a : A) : Type 0 where
  pub on :
      (rest : List ℕ) (c : ℕ)
      → p (record { rest = bs ++ rest; counter = c })
        ≡ ok (a, record { rest = rest; counter = c + length bs })

module _ {v w : Method Output (Unit {0})} {bs cs : List ℕ} (hv : Writes v bs)
    (hw : Writes w cs) where
  seq_on :
      (o : Output)
      → length (bs ++ cs) ≤ o.remaining
      → (v >> w) o
        ≡ ok (
          tt,
          record { written = o.written ++ (bs ++ cs); remaining = o.remaining - length (bs ++ cs) },
        )
  unfolding ◌>>◌
  seq_on o h =
      let mid : Output = record {
        written = o.written ++ bs;
        remaining = o.remaining - length bs;
      } in
      ground (
        arith,
        length-append bs cs,
        hv.on o (omega (arith, length-append bs cs)),
        hw.on mid (omega (arith, length-append bs cs)),
        append_assoc o.written bs cs,
      )

  pub Writes-seq : Writes (v >> w) (bs ++ cs)
  Writes-seq = record { on = seq_on }

module _ {A B : Type 0} {p : Method Input A} (f : A → Method Input B) {bs cs : List ℕ} {a : A}
    {b : B} (hp : Reads p bs a) (hf : Reads (f a) cs b) where
  bind_on :
      (rest : List ℕ) (c : ℕ)
      → (p >>= f) (record { rest = (bs ++ cs) ++ rest; counter = c })
        ≡ ok (b, record { rest = rest; counter = c + length (bs ++ cs) })
  unfolding ◌>>=◌
  bind_on rest c = ground (
    arith,
    hp.on (cs ++ rest) c,
    hf.on rest (c + length bs),
    append_assoc bs cs rest,
    length-append bs cs,
  )

  pub Reads-bind : Reads (p >>= f) (bs ++ cs) b
  Reads-bind = record { on = bind_on }

module _ {A B : Type 0} {p : Method Input A} (f : A → Method Input B) {bs : List ℕ} {a : A}
    {b : B} where
  -- A first step that reads nothing, and a last step that reads nothing.
  pub Reads-silent : Reads p [] a → Reads (f a) bs b → Reads (p >>= f) bs b
  Reads-silent hp hf = Reads-bind f hp hf

  pub Reads-last : Reads p bs a → Reads (f a) [] b → Reads (p >>= f) bs b
  Reads-last hp hf = rw append-nil at (Reads-bind f hp hf)

module _ {B : Type 0} {p : Method Input (Unit {0})} {q : Method Input B} {b : B} where
  pub Reads-check : {cs : List ℕ} → Reads p [] tt → Reads q cs b → Reads (p >> q) cs b
  unfolding ◌>>◌
  Reads-check hp hq = Reads-bind (λ _. q) hp hq

  pub Reads-seq : {bs cs : List ℕ} → Reads p bs tt → Reads q cs b → Reads (p >> q) (bs ++ cs) b
  unfolding ◌>>◌
  Reads-seq hp hq = Reads-bind (λ _. q) hp hq

-- One step of a reader on a given stream.
pub Reads-step :
    {A B : Type 0} {p : Method Input A} (f : A → Method Input B) {bs : List ℕ} {a : A}
    → Reads p bs a
    → (rest : List ℕ) (c : ℕ)
    → (p >>= f) (record { rest = bs ++ rest; counter = c })
      ≡ f a (record { rest = rest; counter = c + length bs })
unfolding ◌>>=◌
Reads-step f hp rest c = ground (arith, hp.on rest c)

pub Reads-step_check :
    {B : Type 0} {p : Method Input (Unit {0})} (q : Method Input B)
    → Reads p [] tt
    → (rest : List ℕ) (c : ℕ)
    → (p >> q) (record { rest = rest; counter = c }) ≡ q (record { rest = rest; counter = c + 0 })
unfolding ◌>>◌
Reads-step_check q hp rest c = Reads-step (λ _. q) hp rest c

pub Reads-return : {A : Type 0} {a b : A} → a ≡ b → Reads (pure a) [] b
unfolding pure
Reads-return e = record { on = λ rest c. ground arith }

pub Reads-pure : {A : Type 0} (a : A) → Reads (pure a) [] a
unfolding pure
Reads-pure a = record { on = λ rest c. ground arith }

pub Reads-lift : {A : Type 0} {r : Result A} {a : A} → r ≡ ok a → Reads (lift r) [] a
unfolding lift
Reads-lift e = record { on = λ rest c. ground arith }

pub Reads-read_bytes : {n : ℕ} (bs : List ℕ) → 0 < n → length bs ≡ n → Reads (read_bytes n) bs bs
Reads-read_bytes {n} bs h e = record {
  on = λ rest c. read_bytes-append n bs rest c h e ∙ ground arith;
}

pub Reads-read : (n v : ℕ) → 0 < n → v < 256 ^ n → Reads (read n) (to_big n v) v
unfolding read ◌>>=◌ pure
Reads-read n v h k = record {
  on = λ rest c. ground (
    arith,
    read_bytes-append n (to_big n v) rest c h (length-to_big n v),
    length-to_big n v,
    take_all n (to_big n v) (omega (arith, length-to_big n v)),
    from_big-to_big n v k,
  );
}

pub Writes-nil : Writes (pure tt) []
unfolding pure
Writes-nil = record { on = λ o h. ground (arith, append-nil o.written) }

pub Writes-data :
    {n : ℕ} (bs : List ℕ) → 0 < n → length bs ≡ n → Writes (write_data (some bs) n false) bs
Writes-data {n} bs h e = record {
  on = λ o k.
      write_data_ok bs n o h (omega arith) (omega arith)
      ∙ ground (arith, take_all n bs (omega arith));
}

pub Writes-skip : (n : ℕ) → 0 < n → Writes (skip_output n) (replicate n 0)
unfolding skip_output write_data
Writes-skip n h = record { on = λ o k. ground (arith, length-replicate {A = ℕ} n 0) }

pub Writes-write : (n v : ℕ) → 0 < n → Writes (write n v) (to_big n v)
unfolding write
Writes-write n v h = Writes-data (to_big n v) h (length-to_big n v)
