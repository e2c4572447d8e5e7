-- ===== src/Chain/Reach.antt =====
-- The states that accepted transactions lead to, and what stays true along the way.
use project_sapphire.Base.{◌≡◌, ok, Ord}
use project_sapphire.Frost.{Ciphersuite, IsLawful}
use project_sapphire.Chain.Tx.{Tx}
use project_sapphire.Chain.State.{State, initial}
use project_sapphire.Chain.Apply.{apply_tx}
use project_sapphire.Chain.Validity.{IsTyped, IsValid}
use project_sapphire.Chain.Validity.Preserved.{initial-IsValid, apply_tx-IsValid}

module _ {I : Type 0} ⦃o : Ord I⦄ {C : Ciphersuite I} where
  -- Any number of accepted transactions, in any order.
  pub data Reaches (s : State C) : State C → Type 0 where
    here : Reaches s s
    next :
        {t u : State C}
        → Reaches s t
        → (tx : Tx C) → IsTyped tx
        → apply_tx t tx ≡ ok u
        → Reaches s u

  pub Reaches-IsValid : {s t : State C} → IsLawful C → IsValid s → Reaches s t → IsValid t
  Reaches-IsValid L v here = v
  Reaches-IsValid L v (next {t} {u} r tx typed h) =
      apply_tx-IsValid L t u tx (Reaches-IsValid L v r) typed h

  -- Every state that the chain reaches from its start is valid: keys in order, a ceremony or a
  -- group but not both, and each ceremony and request as `IsCeremony` and `IsStatus` say.
  pub reachable-IsValid : {t : State C} → IsLawful C → Reaches (initial C) t → IsValid t
  reachable-IsValid L r = Reaches-IsValid L initial-IsValid r
