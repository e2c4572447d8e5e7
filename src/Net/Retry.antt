-- ===== src/Net/Retry.antt =====
-- How long `retrying_connect` tries.
use project_sapphire.Base.{ℕ, zero, suc, ◌+◌, ◌≡◌, ◌≤◌, refl, ap, Result, ok, err, arith}
use project_sapphire.Net.Sockets.{Sockets, IoError}
use project_sapphire.Net.Mesh.{Dialing, connect_loop, connect_again, retrying_connect, next_delay}

-- A peer that can be reached from some time on. Attempts and sleeps take time; a sleep takes at least
-- as long as it is told.
pub record Reachable {S : Sockets} {Addr : Type 0} (D : Dialing S Addr) (addr : Addr) (from : ℕ)
    : Type 0 where
  pub clock : D.World → ℕ
  pub sleeps : (delay : ℕ) (world : D.World) → clock world + delay ≤ clock (D.sleep delay world)
  pub passes : (world : D.World) → clock world ≤ clock (D.connect addr world).1
  pub answers :
      (world : D.World)
      → from ≤ clock world
      → (stream : S.ReadHalf × S.WriteHalf) × ((D.connect addr world).0 ≡ ok stream)

-- The time that the sleeps of a number of rounds take, the first of them of this delay.
patience : ℕ → ℕ → ℕ
patience zero delay = 0
patience (suc rounds) delay = delay + patience rounds (next_delay delay)

patience_lem : patience 20 20 ≡ 8120
unfolding patience
patience_lem = refl

module _ {S : Sockets} {Addr : Type 0} {D : Dialing S Addr} {addr : Addr} {from : ℕ}
    (A : Reachable D addr from) where
  connects :
      (rounds delay : ℕ) (world : D.World)
      → from ≤ A.clock world + patience rounds delay
      → (stream : S.ReadHalf × S.WriteHalf) × ((connect_loop D rounds delay addr world).0
          ≡ ok stream)
  unfolding connect_loop patience connect_again
  connects zero delay world h = A.answers world (omega arith)
  connects (suc rounds) delay world h =
      go (D.connect addr world) refl (connects rounds (next_delay delay))
    where
      go :
          (m : Result (S.ReadHalf × S.WriteHalf) IoError × D.World)
          → D.connect addr world ≡ m
          → ((w : D.World)
              → from ≤ A.clock w + patience rounds (next_delay delay)
              → (stream : S.ReadHalf × S.WriteHalf) × ((connect_loop D rounds
                    (next_delay delay)
                    addr
                    w).0
                  ≡ ok stream))
          → (stream : S.ReadHalf × S.WriteHalf) × ((connect_again D
                (connect_loop D rounds (next_delay delay) addr)
                delay
                m).0
              ≡ ok stream)
      go (ok stream, later) e more = (stream, refl)
      go (err x, later) e more = more (D.sleep delay later) (
          omega (
            arith,
            A.sleeps delay later,
            A.passes world,
            ap (λ (p : Result (S.ReadHalf × S.WriteHalf) IoError × D.World). A.clock p.1) e,
          ))

  -- A peer that can be reached within 8120 milliseconds is reached: `retrying_connect` goes on for so
  -- long, however long the attempts themselves take.
  pub retrying_connect-answers :
      (world : D.World)
      → from ≤ A.clock world + 8120
      → (stream : S.ReadHalf × S.WriteHalf) × ((retrying_connect D addr world).0 ≡ ok stream)
  unfolding retrying_connect
  retrying_connect-answers world h = connects 20 20 world (rw patience_lem h)
