-- ===== src/RequestController/Process/Dns.antt =====
-- internal/controller/certificaterequest_controller.go: the DNS check before a submission.
use horizon_issuer.Common.{
  String, Bool, false, Option, none, some, List, [], ◌∷◌, ◌≡◌, refl, arith, inl, inr, Option-cases,
  ap, ◌∙◌,
}
use horizon_issuer.Errors.{Error, plain, ok}
use horizon_issuer.Api.{IssuerSpec, IssuerDnsChecker}
use horizon_issuer.Effects.{Call, returned, History, lookup_host, State, fail}
use horizon_issuer.Common.Text.{◌<>◌}
use horizon_issuer.Effects.Count.{count, is_horizon}
use horizon_issuer.Effects.Env.{Env, Csr}
use horizon_issuer.Horizon.Requests.{Memory}
use horizon_issuer.RequestController.Process.{check_names, check_dns, process}

abbrev unresolved_text : String → String → Error
unresolved_text server name =
    plain
      ("certificate failed the DNS validation: could not resolve " <> (name <> (" on " <> server)))

module _ (env : Env) (server : String) where
  -- Each name resolves when its turn comes.
  abbrev pub AllResolve : List String → History → Type 0
  AllResolve [] h = Unit
  AllResolve (name ∷ names) h =
      (env.lookup_host h server name ≡ none) × AllResolve names (lookup_host server name ∷ h)

  check_names_sound :
      (names : List String) (s : State Memory)
      → (check_names env server names s).0 ≡ returned none
      → AllResolve names s.history
  unfolding check_names
  check_names_sound [] s h = tt
  check_names_sound (name ∷ names) s h =
      ground (
        arith,
        check_names_sound names (record s { history = lookup_host server name ∷ s.history }),
      )

  check_names_complete :
      (names : List String) (s : State Memory)
      → AllResolve names s.history
      → (check_names env server names s).0 ≡ returned none
  unfolding check_names
  check_names_complete [] s h = refl
  check_names_complete (name ∷ names) s h = ground (
    arith,
    check_names_complete names (record s { history = lookup_host server name ∷ s.history }) h.1,
  )

  check_names-returns :
      (names : List String) (s : State Memory)
      → (o : Option Error) × ((check_names env server names s).0 ≡ returned o)
  unfolding check_names
  check_names-returns [] s = (none, refl)
  check_names-returns (name ∷ names) s =
      elim (Option-cases (env.lookup_host s.history server name)) [
        | inl resolved ↦
            let later =
              check_names-returns names
                (record s { history = lookup_host server name ∷ s.history }) in
            (later.0, ground (arith, later.1))
        | inr (e, unresolved) ↦ (some (unresolved_text server name), ground arith)
      ]

  -- Only DNS is asked.
  asks_dns_only :
      (c : Call → Bool)
      → ((server name : String) → c (lookup_host server name) ≡ false)
      → (names : List String) (s : State Memory)
      → count c (check_names env server names s).1.history ≡ count c s.history
  unfolding check_names
  asks_dns_only c h [] s = refl
  asks_dns_only c h (name ∷ names) s = ground (
    arith,
    h server name,
    asks_dns_only c h names (record s { history = lookup_host server name ∷ s.history }),
  )

module _ (env : Env) (s : State Memory) (spec : IssuerSpec) (checker : IssuerDnsChecker) (csr : Csr)
    (undenied : env.lib.request_is_denied s.memory.request.conditions ≡ false)
    (configured : spec.dns_checker ≡ some checker)
    (decoded : env.lib.decode_csr s.memory.request.request ≡ ok csr) where
  -- Where the issuer configures a DNS check, a request that is not denied, whose CSR can be decoded
  -- and of which some name does not resolve fails with an error before any call of Horizon.
  pub process-unresolved :
      ¬ AllResolve env checker.server (csr.common_name ∷ csr.dns_names) s.history
      → (e : Error) × (((process env spec s).0 ≡ returned (fail e))
          × (count is_horizon (process env spec s).1.history ≡ count is_horizon s.history))
  unfolding process check_dns
  process-unresolved unresolved =
      let names = csr.common_name ∷ csr.dns_names in
      let result = check_names-returns env checker.server names s in
      let asked = asks_dns_only env checker.server is_horizon (λ _ _. refl) names s in
      elim (Option-cases result.0) [
        | inl resolved ↦ absurd (
            unresolved
              (check_names_sound env checker.server names s (result.1 ∙ ap returned resolved)))
        | inr (e, failed) ↦
            (e, (ground (arith, result.1, failed), ground (arith, result.1, asked, failed)))
      ]
