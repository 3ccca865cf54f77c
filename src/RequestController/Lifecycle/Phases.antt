-- ===== src/RequestController/Lifecycle/Phases.antt =====
-- internal/controller/certificaterequest_controller.go: the life of a CertificateRequest as a state
-- machine. A phase is read off the request that the API server holds, and a machine counts the
-- certificates that were ordered.
pub mod Ordered
pub mod Decided
pub mod Finish
pub mod Follows
pub mod Refines
use horizon_issuer.Common.{
  ℕ, suc, Bool, true, false, ◌||◌, ◌≡◌, nat_eq, arith, String, subst, Bool-cases, inl, inr,
}
use horizon_issuer.Api.{CertificateRequest}
use horizon_issuer.Effects.Env.{Env}
use horizon_issuer.RequestController.{is_settled}
use horizon_issuer.RequestController.Lifecycle.{has_id, stored_after}
use horizon_issuer.RequestController.Orders.{orders}
use horizon_issuer.Effects.{State}
use horizon_issuer.Horizon.Requests.{Memory}

-- Nothing ordered; ordered and waiting for Horizon; approved or denied, but neither is carried out;
-- Ready, Failed or Denied for good.
pub data Phase : Type 0 where
  fresh waiting granted refused settled : Phase

pub record Machine : Type 0 where
  pub phase : Phase
  pub ordered : ℕ

-- What one reconciliation may do.
pub data Step : Machine → Machine → Type 0 where
  idle : {m : Machine} → Step m m
  order :
      {n : ℕ}
      → Step (record { phase = fresh; ordered = n }) (record { phase = waiting; ordered = suc n })
  reject :
      {n : ℕ}
      → Step (record { phase = fresh; ordered = n }) (record { phase = settled; ordered = suc n })
  grant :
      {n : ℕ}
      → Step (record { phase = waiting; ordered = n }) (record { phase = granted; ordered = n })
  refuse :
      {n : ℕ}
      → Step (record { phase = waiting; ordered = n }) (record { phase = refused; ordered = n })
  settle :
      {p : Phase} {n : ℕ}
      → Step (record { phase = p; ordered = n }) (record { phase = settled; ordered = n })

-- What several reconciliations may do.
pub data Run : Machine → Machine → Type 0 where
  stop : {m : Machine} → Run m m
  go : {m m' m'' : Machine} → Step m m' → Run m' m'' → Run m m''

-- The steps, as a test on the phases and on the numbers of orders.
abbrev pub moves : Phase → Phase → ℕ → ℕ → Bool
moves fresh fresh n k = nat_eq k n
moves fresh waiting n k = nat_eq k (suc n)
moves fresh settled n k = nat_eq k n || nat_eq k (suc n)
moves waiting waiting n k = nat_eq k n
moves waiting granted n k = nat_eq k n
moves waiting refused n k = nat_eq k n
moves waiting settled n k = nat_eq k n
moves granted granted n k = nat_eq k n
moves granted settled n k = nat_eq k n
moves refused refused n k = nat_eq k n
moves refused settled n k = nat_eq k n
moves settled settled n k = nat_eq k n
moves _ _ n k = false

-- A step to a phase, where the number of orders is found equal.
becomes :
    {m : Machine} {q : Phase} {n k : ℕ}
    → Step m (record { phase = q; ordered = n })
    → nat_eq k n ≡ true
    → Step m (record { phase = q; ordered = k })
becomes {m} {q} {n} {k} step h =
    subst (λ j. Step m (record { phase = q; ordered = j })) (ground arith) step

pub moves-Step :
    (p q : Phase) (n k : ℕ)
    → moves p q n k ≡ true
    → Step (record { phase = p; ordered = n }) (record { phase = q; ordered = k })
moves-Step fresh fresh n k h = becomes idle h
moves-Step fresh waiting n k h = becomes order h
moves-Step fresh granted n k h = ground arith
moves-Step fresh refused n k h = ground arith
moves-Step fresh settled n k h = elim (Bool-cases (nat_eq k n)) [
  | inl e ↦ becomes settle e
  | inr e ↦ becomes reject (ground arith)
]
moves-Step waiting fresh n k h = ground arith
moves-Step waiting waiting n k h = becomes idle h
moves-Step waiting granted n k h = becomes grant h
moves-Step waiting refused n k h = becomes refuse h
moves-Step waiting settled n k h = becomes settle h
moves-Step granted fresh n k h = ground arith
moves-Step granted waiting n k h = ground arith
moves-Step granted granted n k h = becomes idle h
moves-Step granted refused n k h = ground arith
moves-Step granted settled n k h = becomes settle h
moves-Step refused fresh n k h = ground arith
moves-Step refused waiting n k h = ground arith
moves-Step refused granted n k h = ground arith
moves-Step refused refused n k h = becomes idle h
moves-Step refused settled n k h = becomes settle h
moves-Step settled fresh n k h = ground arith
moves-Step settled waiting n k h = ground arith
moves-Step settled granted n k h = ground arith
moves-Step settled refused n k h = ground arith
moves-Step settled settled n k h = becomes idle h

pub moves_refl : (p : Phase) (n : ℕ) → moves p p n n ≡ true
moves_refl fresh n = ground arith
moves_refl waiting n = ground arith
moves_refl granted n = ground arith
moves_refl refused n = ground arith
moves_refl settled n = ground arith

-- The phase that the three answers about the conditions, and whether there is a request id, make.
abbrev pub phase_from : (settles denied approved has_id : Bool) → Phase
phase_from true denied approved id = settled
phase_from false true approved id = refused
phase_from false false true id = granted
phase_from false false false true = waiting
phase_from false false false false = fresh

module _ (env : Env) (ns : String) where
  abbrev pub phase_of : CertificateRequest → Phase
  phase_of cr =
      phase_from (is_settled env ns cr.conditions) (env.lib.request_is_denied cr.conditions)
        (env.lib.request_is_approved cr.conditions) (has_id cr.metadata.annotations)

  -- The machine of a state: the phase of the request that is stored, and the orders so far.
  abbrev pub machine : CertificateRequest → State Memory → Machine
  machine init s = record { phase = phase_of (stored_after init s.history); ordered = orders s }
