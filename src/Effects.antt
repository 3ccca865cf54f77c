-- ===== src/Effects.antt =====
-- What a reconciler does to the outside: the calls that it makes, in order, and the monad in which
-- the Go methods run. A method has an object in memory, which its callees and its deferred
-- function share through a pointer, and may panic; the memory is there after a panic too.
pub mod Env
pub mod Count
use horizon_issuer.Common.{
  ◌≡◌, refl, ap, ◌⊎◌, inl, inr, ℕ, String, Bool, true, false, Option, none, some, List, [], ◌∷◌,
}
use horizon_issuer.Common.Dict.{Dict, insert}
use horizon_issuer.Errors.{Error}
use horizon_issuer.Api.{NamespacedName, CertificateRequest, Certificate, ClientObject, ObjectMeta}
use horizon_issuer.Sdk.{Client, TemplateRequest, Submission}

-- The object that an event is recorded for.
pub data EventTarget : Type 0 where
  for_request : CertificateRequest → EventTarget
  for_issuer : ClientObject → EventTarget

-- A call of the API server, of Horizon, of DNS or of the event recorder.
pub data Call : Type 0 where
  get_request get_issuer get_cluster_issuer get_secret get_certificate get_ingress :
      NamespacedName → Call
  update_request update_request_status : CertificateRequest → Call
  update_certificate : Certificate → Call
  update_issuer_status : ClientObject → Call
  event : EventTarget → (event_type reason message : String) → Call
  request_template : Client → TemplateRequest → Call
  request_submit : Client → Submission → Call
  request_get : Client → (id : String) → Call
  tc_pem : Client → (pem : String) → Call
  principal_self : Client → Call
  lookup_host : (server name : String) → Call

-- The calls so far, the last one first. What the outside answers may depend on all of them.
abbrev pub History : Type 0
History = List Call

pub record State (S : Type 0) : Type 0 where
  pub memory : S
  pub history : History

pub data Outcome (A : Type 0) : Type 0 where
  returned : A → Outcome A
  panicked : Outcome A

abbrev pub M : Type 0 → Type 0 → Type 0
M S A = State S → Outcome A × State S

module _ {S A : Type 0} where
  abbrev pub pure : A → M S A
  pure a s = (returned a, s)

  -- A nil dereference, or a write to a nil map.
  abbrev pub panic : M S A
  panic s = (panicked, s)

  -- Makes a call; the answer depends on the calls before it.
  abbrev pub ask : Call → (History → A) → M S A
  ask c answer s = (returned (answer s.history), record s { history = c ∷ s.history })

  abbrev pub gets : (S → A) → M S A
  gets f s = (returned (f s.memory), s)

  -- What the outside would answer now, with no call to see (the clock).
  abbrev pub observe : (History → A) → M S A
  observe f s = (returned (f s.history), s)

  -- A dereference of a pointer that may be nil.
  abbrev pub deref : Option A → M S A
  deref none = panic
  deref (some a) = pure a

infixl 5 ◌>>=◌ ◌>>◌
abbrev pub ◌>>=◌ : {S A B : Type 0} → M S A → (A → M S B) → M S B
◌>>=◌ m f s = let (o, s') = m s in elim o [ returned a ↦ f a s' | panicked ↦ (panicked, s') ]

abbrev pub ◌>>◌ : {S A B : Type 0} → M S A → M S B → M S B
m >> k = m >>= λ _. k

abbrev pub modify : {S : Type 0} → (S → S) → M S (Unit {0})
modify f s = (returned tt, record s { memory = f s.memory })

abbrev pub when : {S : Type 0} → Bool → M S (Unit {0}) → M S (Unit {0})
when true m = m
when false m = pure tt

-- `ctrl.Result`; the delay is in nanoseconds.
pub record CtrlResult : Type 0 where
  pub requeue : Bool
  pub requeue_after : ℕ

-- The named results `(result ctrl.Result, err error)`.
pub record Return : Type 0 where
  pub result : CtrlResult
  pub err : Option Error

abbrev pub no_requeue : CtrlResult
no_requeue = record { requeue = false; requeue_after = 0 }

-- `return ctrl.Result{}, nil`
abbrev pub done : Return
done = record { result = no_requeue; err = none }

-- `return ctrl.Result{}, e`
abbrev pub fail : Error → Return
fail e = record { result = no_requeue; err = some e }

abbrev pub named_results : Outcome Return → Return
named_results (returned r) = r
named_results panicked = done

abbrev resume : Outcome Return → Outcome Return → Outcome Return
resume (returned _) o = o
resume panicked _ = panicked

-- `defer func() { … }()` over the named results: it runs after a panic too, which then goes on.
abbrev pub with_defer : {S : Type 0} → (Return → M S Return) → M S Return → M S Return
with_defer deferred body s =
    let (o, s') = body s in let (o', t) = deferred (named_results o) s' in (resume o o', t)

pub Outcome-cases : {A : Type 0} (o : Outcome A) → ((a : A) × (o ≡ returned a)) ⊎ (o ≡ panicked)
Outcome-cases (returned a) = inl (a, refl)
Outcome-cases panicked = inr refl

-- A bind whose first part returns goes on with its value and state.
pub >>=-returned :
    {S A B : Type 0} (m : M S A) (f : A → M S B) {s t : State S} {a : A}
    → m s ≡ (returned a, t)
    → (m >>= f) s ≡ f a t
>>=-returned {S} {A} {B} m f h =
    ap
      (λ (q : Outcome A × State S). (elim q.0 as (λ _. Outcome B × State S) [
        | returned a ↦ f a q.1
        | panicked ↦ (panicked, q.1)
      ]))
      h

-- A deferred function after a body that returns gets its results, and its own are returned.
pub with_defer-returned :
    {S : Type 0} (deferred : Return → M S Return) (body : M S Return) {s t : State S} {r : Return}
    → body s ≡ (returned r, t)
    → (with_defer deferred body s).1 ≡ (deferred r t).1
with_defer-returned {S} deferred body h =
    ap (λ (q : Outcome Return × State S). (deferred (named_results q.0) q.1).1) h
