-- ===== src/Net/Sockets.antt =====
-- What sapphire-net uses of tokio's TCP streams: a record of operations, and what the documentation
-- says of them. A `TcpStream` is the pair of its halves. The texts of errors are left out.
use project_sapphire.Base.{ℕ, ◌≡◌, refl, ◌<◌, ◌++◌, Result, ok, err, String, length}
use project_sapphire.Core.{Bytes}

-- `io::Error`, by its kind. The kinds that only the system reports are one.
pub data IoError : Type 0 where
  invalid_data : IoError
  invalid_input : IoError
  other : IoError
  system : String → IoError

-- Code over a state, with `?` as bind. A call returns its result and the state as it leaves it, also
-- where it fails.
abbrev pub Io : Type 0 → Type 0 → Type 0
Io T A = T → Result A IoError × T

abbrev pub continue : {A B T : Type 0} → Result A IoError × T → (A → Io T B) → Result B IoError × T
continue (err e, s) next = (err e, s)
continue (ok a, s) next = next a s

infixl 5 ◌>>=◌ ◌>>◌
abbrev pub ◌>>=◌ : {A B T : Type 0} → Io T A → (A → Io T B) → Io T B
◌>>=◌ m next s = continue (m s) next

abbrev pub ◌>>◌ : {B T : Type 0} → Io T (Unit {0}) → Io T B → Io T B
m >> rest = m >>= λ _. rest

-- Inversion of a successful chain.
pub continue-eq-ok :
    {A B T : Type 0} (m : Result A IoError × T) (next : A → Io T B) {b : B} {s' : T}
    → continue m next ≡ (ok b, s')
    → (a : A) × (s : T) × (m ≡ (ok a, s)) × (next a s ≡ (ok b, s'))
continue-eq-ok (err e, s) next h = cc
continue-eq-ok (ok a, s) next h = (a, s, refl, h)

pub fails :
    {A B T : Type 0} (m : Result A IoError × T) (next : A → Io T B) {e : IoError}
    → m.0 ≡ err e
    → (continue m next).0 ≡ err e
fails (err e, s) next h = cc
fails (ok a, s) next h = cc

-- `return Err(…)`
abbrev pub throw : {A T : Type 0} → IoError → Io T A
throw e s = (err e, s)

pub record Sockets : Type 1 where
  pub ReadHalf : Type 0
  pub WriteHalf : Type 0
  -- `AsyncReadExt::read_exact`: fills a buffer of the given length.
  pub read_exact : ℕ → Io ReadHalf Bytes
  -- `AsyncWriteExt::{write_all, flush, shutdown}`
  pub write_all : Bytes → Io WriteHalf (Unit {0})
  pub flush : Io WriteHalf (Unit {0})
  pub shutdown : WriteHalf → WriteHalf
  -- What will still arrive before the stream ends, and all that was sent: no code reads these.
  pub arriving : ReadHalf → Bytes
  pub sent : WriteHalf → Bytes

-- A read that gets what it asks for.
pub record Reads (S : Sockets) (r : S.ReadHalf) (bs rest : Bytes) : Type 0 where
  pub after : S.ReadHalf
  pub reads : S.read_exact (length bs) r ≡ (ok bs, after)
  pub leaves : S.arriving after ≡ rest

-- A write, which may end early: `part` of `bs` is sent.
pub record Writes (S : Sockets) (w w' : S.WriteHalf) (bs : Bytes) : Type 0 where
  pub part : Bytes
  pub lost : Bytes
  pub split : part ++ lost ≡ bs
  pub sends : S.sent w' ≡ S.sent w ++ part

-- A stream keeps bytes in order and whole.
pub record IsReliable (S : Sockets) : Type 1 where
  pub read_next : (bs rest : Bytes) (r : S.ReadHalf) → S.arriving r ≡ bs ++ rest → Reads S r bs rest
  pub read_past_end :
      (n : ℕ) (r : S.ReadHalf)
      → length (S.arriving r) < n
      → (e : IoError) × ((S.read_exact n r).0 ≡ err e)
  pub write_done :
      (bs : Bytes) (w w' : S.WriteHalf)
      → S.write_all bs w ≡ (ok tt, w')
      → S.sent w' ≡ S.sent w ++ bs
  pub write_failed :
      (bs : Bytes) (w w' : S.WriteHalf) (e : IoError)
      → S.write_all bs w ≡ (err e, w')
      → Writes S w w' bs
  pub sent-flush : (w : S.WriteHalf) → S.sent (S.flush w).1 ≡ S.sent w
  pub sent-shutdown : (w : S.WriteHalf) → S.sent (S.shutdown w) ≡ S.sent w
  -- A connection that neither side has closed takes what is written.
  pub IsOpen : S.WriteHalf → Type 0
  pub write-IsOpen :
      (bs : Bytes) (w : S.WriteHalf)
      → IsOpen w
      → (w' : S.WriteHalf) × (S.write_all bs w ≡ (ok tt, w')) × IsOpen w'
  pub flush-IsOpen :
      (w : S.WriteHalf) → IsOpen w → (w' : S.WriteHalf) × (S.flush w ≡ (ok tt, w')) × IsOpen w'
