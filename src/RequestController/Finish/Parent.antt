-- ===== src/RequestController/Finish/Parent.antt =====
-- internal/controller/certificaterequest_controller.go: what the deferred function returns.
use horizon_issuer.Common.{
  get_or, Bool-cases, ◌∙◌, ap, Option, none, some, ◌∷◌, [], ◌≡◌, refl, arith, inl, inr,
}
use horizon_issuer.Common.Dict.{Dict}
use horizon_issuer.Errors.{Error}
use horizon_issuer.Effects.{
  get_certificate, Outcome, pure, ◌>>=◌, >>=-returned, State, Return, returned, no_requeue,
}
use horizon_issuer.Effects.Env.{Env}
use horizon_issuer.Horizon.Requests.{Memory}
use horizon_issuer.Horizon.Annotations.{certificate_id}
use horizon_issuer.Api.{get_annotation}
use horizon_issuer.Common.Text.{is_empty}
use horizon_issuer.IssuerUtil.{certificate_name, certificate_from_request}
use horizon_issuer.RequestController.Finish.{
  with_last_id, record_outcome, write_request, update_parent, aggregate, store, finish,
}
use horizon_issuer.RequestController.Finish.Failure.{record_failure_lem}

module _ (env : Env) where
  update_parent-returns :
      (s : State Memory) → (p : Option Error) × ((update_parent env s).0 ≡ returned p)
  unfolding update_parent certificate_from_request
  update_parent-returns s =
      let id = get_or (get_annotation certificate_id s.memory.request.metadata.annotations) "" in
      elim (Bool-cases (is_empty id)) [
        | inl h ↦ (none, ground (arith, h))
        | inr h ↦
            let fetched = record s {
              history = get_certificate (certificate_name s.memory.request) ∷ s.history;
            } in
            let parent =
              with_last_id env id
                (env.cluster.get_certificate s.history (certificate_name s.memory.request)).0 in
            (env.cluster.update_certificate fetched.history parent, ground (arith, h))
      ]

  -- The state after the error, if there is one, was recorded.
  abbrev pub recorded : Return → State Memory → State Memory
  recorded r s = (record_outcome env r.err s).1

  record_outcome-returns :
      (o : Option Error) (s : State Memory) → (record_outcome env o s).0 ≡ returned tt
  unfolding record_outcome
  record_outcome-returns none s = refl
  record_outcome-returns (some e) s = ap (λ q. q.0) (record_failure_lem env e s)

  finish-aggregate :
      (before : Option Dict) (r : Return) (s : State Memory) (u : Option Error)
      → (write_request env before (recorded r s)).0 ≡ returned u
      → (p : Option Error) × ((finish env before r s).0 ≡ returned (aggregate env r u p))
  unfolding finish store
  finish-aggregate before r s u h =
      let t = recorded r s in
      let t' = (write_request env before t).1 in
      let (p, returns) = update_parent-returns t' in
      (
        p,
        ap (λ (q : Outcome Return × State Memory). q.0)
            (>>=-returned (record_outcome env r.err) (λ _. store env before r)
                (ap (λ o. (o, t)) (record_outcome-returns r.err s))
              ∙ (>>=-returned (write_request env before)
                    (λ u'. update_parent env >>= λ p'. pure (aggregate env r u' p'))
                    (ap (λ o. (o, t')) h)
                  ∙ >>=-returned (update_parent env) (λ p'. pure (aggregate env r u p'))
                      (ap (λ o. (o, (update_parent env t').1)) returns))),
      )

-- Where the write of the request succeeds, the deferred function returns the results that it was
-- given, whatever becomes of the update of the parent Certificate.
pub finish-written :
    (env : Env) (before : Option Dict) (r : Return) (s : State Memory)
    → (write_request env before (recorded env r s)).0 ≡ returned none
    → (finish env before r s).0 ≡ returned r
unfolding aggregate
finish-written env before r s h = (finish-aggregate env before r s none h).1

-- Where the write of the request fails, the deferred function returns no requeue and an aggregate of
-- the error that it was given, the error of the write, and what the update of the parent gave.
pub finish-unwritten :
    (env : Env) (before : Option Dict) (r : Return) (s : State Memory) (e : Error)
    → (write_request env before (recorded env r s)).0 ≡ returned (some e)
    → (p : Option Error) × ((finish env before r s).0
        ≡ returned (record {
          result = no_requeue;
          err = env.lib.new_aggregate (r.err ∷ (some e ∷ (p ∷ [])));
        }))
unfolding aggregate
finish-unwritten env before r s e h = finish-aggregate env before r s (some e) h
