-- ===== src/Transport/Stream.antt =====
-- The byte streams under `crates/ganglion-openraft/src/openraft_runtime/tcp.rs`: `read_exact` and
-- `write_all` of tokio, and the kinds of `io::Error` that the code tells apart.
use ganglion.Prelude.{
  ◌⊎◌, ℕ, zero, suc, ◌+◌, ◌-◌, Option, some, none, List, [], ◌∷◌, ◌++◌, ◌≡◌, refl, arith, length,
  take, leb, if◌then◌else◌, Result, ok, err, Option-cases, inl, inr,
}

abbrev pub Bytes : Type 0
Bytes = List ℕ

pub data ErrorKind : Type 0 where
  connection_refused connection_reset connection_aborted broken_pipe : ErrorKind
  unexpected_eof invalid_data timed_out other_kind : ErrorKind

-- The bytes that are still to be read and the error that a read meets after them, the bytes that
-- were written, how many more are taken, and the error that a write meets then.
pub record Stream : Type 0 where
  pub incoming : Bytes
  pub end : ErrorKind
  pub outgoing : Bytes
  pub room : ℕ
  pub failure : ErrorKind

abbrev pub split : ℕ → Bytes → Option (Bytes × Bytes)
split zero bytes = some ([], bytes)
split (suc n) [] = none
split (suc n) (b ∷ bytes) = elim (split n bytes) [
  | none ↦ none
  | some (front, rest) ↦ some (b ∷ front, rest)
]

-- A read that fails has taken what there was.
unfoldable pub read_exact : ℕ → Stream → Result ErrorKind Bytes × Stream
read_exact n s = elim (split n s.incoming) [
  | none ↦ (err s.end, record s { incoming = [] })
  | some (front, rest) ↦ (ok front, record s { incoming = rest })
]

unfoldable pub write_all : Bytes → Stream → Result ErrorKind (Unit {0}) × Stream
write_all bytes s =
    if leb (length bytes) s.room
    then (ok tt, record s { outgoing = s.outgoing ++ bytes; room = s.room - length bytes })
    else (err s.failure, record s { outgoing = s.outgoing ++ take s.room bytes; room = 0 })

split-append : (xs ys : Bytes) → split (length xs) (xs ++ ys) ≡ some (xs, ys)
split-append [] ys = refl
split-append (x ∷ xs) ys = rw (split-append xs ys) refl

length-split :
    (n : ℕ) (bytes front rest : Bytes)
    → split n bytes ≡ some (front, rest)
    → (length front ≡ n) × (length bytes ≡ n + length rest)
length-split zero bytes front rest h = ground arith
length-split (suc n) [] front rest h = cc
length-split (suc n) (b ∷ bytes) front rest h = elim (Option-cases (split n bytes)) [
  | inl short ↦ absurd (ground arith)
  | inr ((f, r), found) ↦ ground (arith, length-split n bytes f r found)
]

-- `.await?` between two steps on a stream.
abbrev pub await :
    {A B : Type 0}
    → Result ErrorKind A × Stream
    → (A → Stream → Result ErrorKind B × Stream)
    → Result ErrorKind B × Stream
await (err e, s) next = (err e, s)
await (ok a, s) next = next a s

pub read_exact-append :
    (xs ys : Bytes) (s : Stream)
    → read_exact (length xs) (record s { incoming = xs ++ ys })
      ≡ (ok xs, record s { incoming = ys })
unfolding read_exact
read_exact-append xs ys s = rw (read_exact, split-append xs ys) refl

-- What a read leaves of a stream: it takes the bytes it gives, or it fails as the stream ends.
pub read_exact_cases :
    (n : ℕ) (s : Stream)
    → ((bytes rest : Bytes) × ((read_exact n s ≡ (ok bytes, record s { incoming = rest }))
          × ((length bytes ≡ n) × (length s.incoming ≡ n + length rest))))
      ⊎ (read_exact n s ≡ (err s.end, record s { incoming = [] }))
unfolding read_exact
read_exact_cases n s = elim (Option-cases (split n s.incoming)) [
  | inl short ↦ inr (ground arith)
  | inr ((front, rest), found) ↦
      inl (front, rest, ground (arith, length-split n s.incoming front rest found))
]
