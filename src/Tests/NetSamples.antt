-- ===== src/Tests/NetSamples.antt =====
-- Streams and a handshake to try the mesh on: a connection that stays open, and a cipher whose tag is
-- the number of the message.
use project_sapphire.Base.{
  ℕ, ◌+◌, ◌≡◌, ◌<◌, refl, ap, ◌∙◌, Option, none, some, [], ◌∷◌, ◌++◌, Result, ok, err, String,
  length, take, drop, take-append, drop-append, length-append, ltb, eqb, if◌then◌else◌, arith,
}
use project_sapphire.Core.{Bytes}
use project_sapphire.Net.Sockets.{Sockets, IsReliable, IoError, system}
use project_sapphire.Tests.EscrowExamples.{zeros}
use project_sapphire.Net.Noise.{Noise, IsLawfulNoise}

abbrev read_from : ℕ → Bytes → Result Bytes IoError × Bytes
read_from n r =
    if ltb (length r) n
    then (err (system "unexpected end of file"), r)
    else (ok (take n r), drop n r)

-- A half is the bytes that arrive, or those that were sent.
abbrev pub sockets : Sockets
sockets = record {
  ReadHalf = Bytes;
  WriteHalf = Bytes;
  read_exact = read_from;
  write_all = λ bs w. (ok tt, w ++ bs);
  flush = λ w. (ok tt, w);
  shutdown = λ w. w;
  arriving = λ r. r;
  sent = λ w. w;
}

read_from-append : (bs rest : Bytes) → read_from (length bs) (bs ++ rest) ≡ (ok bs, rest)
read_from-append bs rest =
    ground (arith, take-append bs rest, drop-append bs rest, length-append bs rest)

pub sockets-IsReliable : IsReliable sockets
sockets-IsReliable = record {
  read_next = λ bs rest r h. record {
    after = rest;
    reads = ap (read_from (length bs)) h ∙ read_from-append bs rest;
    leaves = refl;
  };
  read_past_end = λ n r h. (system "unexpected end of file", short n r h);
  write_done = λ bs w w' h. cc;
  write_failed = λ bs w w' e h. absurd (cc);
  sent-flush = λ w. refl;
  sent-shutdown = λ w. refl;
  IsOpen = λ w. Unit {0};
  write-IsOpen = λ bs w o. (w ++ bs, refl, tt);
  flush-IsOpen = λ w o. (w, refl, tt);
}
  where
    short :
        (n : ℕ) (r : Bytes)
        → length r < n
        → (read_from n r).0 ≡ err (system "unexpected end of file")
    short n r h = ground arith

-- How many messages went out and came in.
pub record Counters : Type 0 where
  pub out : ℕ
  pub inward : ℕ

pub record Shake : Type 0 where
  pub secret : Bytes
  pub remote : Option Bytes
  pub step : ℕ

abbrev tagged : ℕ → Bytes → Bytes
tagged n text = (n ∷ zeros 15) ++ text

abbrev untag : ℕ → Bytes → Result Bytes String
untag n [] = err "no tag"
untag n (m ∷ ct) = if eqb n m then ok (drop 15 ct) else err "wrong tag"

abbrev learned : Bytes → Option Bytes → Option Bytes
learned [] remote = remote
learned (b ∷ bs) remote = some (b ∷ bs)

abbrev pub begins_with : Bytes → Shake
begins_with secret = record { secret = secret; remote = none; step = 0 }

abbrev pub noise : Noise
noise = record {
  NoiseError = String;
  TransportState = Counters;
  encrypt = λ text space t. (ok (tagged t.out text), record t { out = t.out + 1 });
  decrypt = λ ct room t. (untag t.inward ct, record t { inward = t.inward + 1 });
  HandshakeState = Shake;
  Entropy = Unit {0};
  build_initiator = λ pattern secret e. ok (begins_with secret);
  build_responder = λ pattern secret e. ok (begins_with secret);
  write_message = λ payload space s.
      (ok (if eqb s.step 0 then [] else s.secret), record s { step = s.step + 1 });
  read_message = λ m room s. (ok [], record s { remote = learned m s.remote; step = s.step + 1 });
  get_remote_static = λ s. s.remote;
  into_transport_mode = λ s. ok (record { out = 0; inward = 0 });
}

untag-tagged : (n m : ℕ) (text : Bytes) → n ≡ m → untag m (tagged n text) ≡ ok text
untag-tagged n m text h = ground arith

pub noise-IsLawfulNoise : IsLawfulNoise noise
noise-IsLawfulNoise = record {
  Paired = λ k a b. a.out ≡ b.inward;
  pass = λ k a b text paired h. (
    record {
      ciphertext = tagged a.out text;
      sender = record a { out = a.out + 1 };
      receiver = record b { inward = b.inward + 1 };
      encrypts = refl;
      tagged = omega arith;
      decrypts =
          ap
            (λ (r : Result Bytes String).
              let p : Result Bytes String × Counters = (r, record b { inward = b.inward + 1 }) in p)
            (untag-tagged a.out b.inward text paired);
    },
    ap (λ (n : ℕ). n + 1) paired,
  );
  decrypt-Paired = λ k a b ct room paired. paired;
  decrypt-encrypt_other = λ t text ct room space. refl;
}

pub in_step :
    (k n : ℕ)
    → noise-IsLawfulNoise.Paired k (record { out = n; inward = 0 }) (record { out = 0; inward = n })
unfolding noise-IsLawfulNoise
in_step k n = refl

pub is_open : (w : Bytes) → sockets-IsReliable.IsOpen w
unfolding sockets-IsReliable
is_open w = tt
