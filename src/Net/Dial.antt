-- ===== src/Net/Dial.antt =====
-- Which peers a node dials, and which it accepts.
use project_sapphire.Base.{
  ◌≡◌, ◌≢◌, ◌↔◌, ◌⊎◌, inl, inr, refl, sym, Bool, true, false, List, [], ◌∷◌, Ordering, list_ord,
  nat_ord, arith, if_elim, subst, ==_iff, one_greater, ◌||◌, ℕ, suc, ◌==◌, if◌then◌else◌,
}
use project_sapphire.Base.Map.{contains_key, get}
use project_sapphire.Base.Map.Laws.{contains-insert}
use project_sapphire.Core.{Bytes}
use project_sapphire.Net.Mesh.{PeerConfig, dialed, allowed_peers, at_most}

-- Some peer of the list has this key.
abbrev pub Lists : {Addr : Type 0} → Bytes → List (PeerConfig Addr) → Type 0
Lists key [] = ⊥
Lists key (p ∷ peers) = (p.static_public ≡ key) ⊎ Lists key peers

at_most-false : (a b : Bytes) → at_most a b ≡ false → list_ord.cmp a b ≡ Ordering.gt
at_most-false a b h = ground arith

at_most-true : (a b : Bytes) → at_most a b ≡ true → list_ord.cmp a b ≢ Ordering.gt
at_most-true a b h e = ground arith

contains-nil : (key : Bytes) → contains_key {V = Unit {0}} key [] ≡ true → ⊥
unfolding contains_key get
contains-nil key h = cc

or_iff :
    {k k' : Bytes} {a b : Bool} {Q : Type 0}
    → (a ≡ true) ↔ (k ≡ k')
    → (b ≡ true) ↔ Q
    → ((a || b) ≡ true) ↔ ((k' ≡ k) ⊎ Q)
or_iff {a = true} p q = ((λ h. inl (sym (p.0 refl))), (λ h. refl))
or_iff {a = false} p q = (
  (λ h. inr (q.0 h)),
  (λ h. elim h [ inl same ↦ absurd (ground (arith, p.1 (sym same))) | inr later ↦ q.1 later ]),
)

module _ {Addr : Type 0} where
  -- How many peers of the list have this key.
  unfoldable pub times : Bytes → List (PeerConfig Addr) → ℕ
  times key [] = 0
  times key (p ∷ peers) =
      let rest = times key peers in if p.static_public == key then suc rest else rest

  times-dialed_greater :
      (mine key : Bytes) (peers : List (PeerConfig Addr))
      → list_ord.cmp key mine ≡ Ordering.gt
      → times key (dialed mine peers) ≡ times key peers
  unfolding dialed times
  times-dialed_greater mine key [] g = refl
  times-dialed_greater mine key (p ∷ peers) g =
      if_elim (λ (l : List (PeerConfig Addr)). times key l ≡ times key (p ∷ peers))
        (at_most p.static_public mine)
        (λ e.
          let other : p.static_public ≢ key = λ same.
            at_most-true p.static_public mine e
              (subst (λ k. list_ord.cmp k mine ≡ Ordering.gt) (sym same) g) in
          ground (arith, times-dialed_greater mine key peers g, ==_iff p.static_public key, other))
        (λ e. ground (arith, times-dialed_greater mine key peers g))

  times-dialed_at_most :
      (mine key : Bytes) (peers : List (PeerConfig Addr))
      → list_ord.cmp key mine ≢ Ordering.gt
      → times key (dialed mine peers) ≡ 0
  unfolding dialed times
  times-dialed_at_most mine key [] n = refl
  times-dialed_at_most mine key (p ∷ peers) n =
      if_elim (λ (l : List (PeerConfig Addr)). times key l ≡ 0) (at_most p.static_public mine)
        (λ e. times-dialed_at_most mine key peers n)
        (λ e.
          let other : p.static_public ≢ key = λ same. n (
            subst (λ k. list_ord.cmp k mine ≡ Ordering.gt) same
              (at_most-false p.static_public mine e)) in
          ground (arith, times-dialed_at_most mine key peers n, ==_iff p.static_public key, other))

  -- Of two nodes with different keys, the one with the lesser key dials the other's key as many times
  -- as it lists it, and the other does not dial the first one's key, however often it lists it. A
  -- node dials no peer with its own key.
  pub dialed-one_side :
      (a b : Bytes) (peers_of_a peers_of_b : List (PeerConfig Addr))
      → a ≢ b
      → (((list_ord.cmp b a ≡ Ordering.gt)
            × (times b (dialed a peers_of_a) ≡ times b peers_of_a)
            × (times a (dialed b peers_of_b) ≡ 0))
          ⊎ ((list_ord.cmp a b ≡ Ordering.gt)
              × (times b (dialed a peers_of_a) ≡ 0)
              × (times a (dialed b peers_of_b) ≡ times a peers_of_b)))
        × (times a (dialed a peers_of_a) ≡ 0)
  dialed-one_side a b peers_of_a peers_of_b n = (
    elim (one_greater a b n) [
      | inl (gt, not_gt) ↦
          inl
            (gt, times-dialed_greater a b peers_of_a gt, times-dialed_at_most b a peers_of_b not_gt)
      | inr (not_gt, gt) ↦
          inr
            (gt, times-dialed_at_most a b peers_of_a not_gt, times-dialed_greater b a peers_of_b gt)
    ],
    times-dialed_at_most a a peers_of_a
        (λ e. let same : list_ord.cmp a a ≡ Ordering.eq = list_ord.cmp_self a in absurd (cc)),
  )

  pub contains-allowed_peers :
      (key : Bytes) (peers : List (PeerConfig Addr))
      → (contains_key key (allowed_peers peers) ≡ true) ↔ Lists key peers
  unfolding allowed_peers
  contains-allowed_peers key [] = ((λ h. absurd (contains-nil key h)), (λ h. absurd h))
  contains-allowed_peers key (p ∷ peers) =
      rw (contains-insert key p.static_public tt (allowed_peers peers))
        (or_iff (==_iff key p.static_public) (contains-allowed_peers key peers))
