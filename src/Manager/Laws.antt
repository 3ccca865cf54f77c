-- ===== src/Manager/Laws.antt =====
-- cmd/main.go: in which order the program is set up, and how it is protected.
use horizon_issuer.Common.{
  ◌↔◌, String, true, List, [], ◌∷◌, ◌++◌, ◌≡◌, refl, ◌∙◌, sym, subst, ap, arith, inl, inr,
  Bool-cases, if◌then◌else◌,
}
use horizon_issuer.Errors.{Error, ok, Result-cases}
use horizon_issuer.Manager.Runs.{
  AllTaken, StopsAt, is_started, run-StopsAt, run-finished, run-taken, run-started, run-start,
}
use horizon_issuer.Manager.{
  Flags, System, Step, TlsOption, get_config, new_manager, setup_issuer, setup_request, add_healthz,
  add_readyz, start, manager_options, finished, failed, webhook_server_options,
  metrics_server_options, seconds, steps, run, main, resource_namespace,
}

-- The protocols that a server offers, from those of the library.
abbrev pub offered : List TlsOption → List String → List String
offered [] protocols = protocols
offered (option ∷ options) protocols = offered options (option protocols)

-- Without the flag both servers offer HTTP/1.1 alone; with it they offer what the library does.
pub servers-http2 :
    (flags : Flags) (protocols : List String)
    → (offered (webhook_server_options flags).tls_opts protocols
        ≡ (if flags.enable_http2 then protocols else "http/1.1" ∷ []))
      × (offered (metrics_server_options flags).tls_opts protocols
          ≡ (if flags.enable_http2 then protocols else "http/1.1" ∷ []))
unfolding webhook_server_options metrics_server_options
servers-http2 flags protocols = elim (Bool-cases flags.enable_http2) [
  | inl h ↦ ground (arith, h)
  | inr h ↦ ground (arith, h)
]

-- What is to be set up before the manager runs, in this order: the manager, a controller for each
-- kind of issuer and one for the requests, all with the same namespace, and both probes.
abbrev pub setup : Flags → (namespace : String) → List Step
setup flags namespace =
    get_config
    ∷ (new_manager (manager_options flags)
        ∷ (setup_issuer (record {
          kind = "Issuer";
          cluster_resource_namespace = namespace;
          health_check_interval = seconds flags.health_check_interval;
        })
            ∷ (setup_issuer (record {
              kind = "ClusterIssuer";
              cluster_resource_namespace = namespace;
              health_check_interval = seconds flags.health_check_interval;
            })
                ∷ (setup_request namespace ∷ (add_healthz ∷ (add_readyz ∷ []))))))

steps-setup :
    (flags : Flags) (namespace : String)
    → steps flags namespace ≡ setup flags namespace ++ start ∷ []
unfolding steps
steps-setup flags namespace = refl

main_planned :
    (sys : System) (flags : Flags) (namespace : String)
    → resource_namespace sys flags ≡ ok namespace
    → main sys flags ≡ run sys [] (setup flags namespace ++ start ∷ [])
unfolding main
main_planned sys flags namespace known =
    let known_run : main sys flags ≡ run sys [] (steps flags namespace) = rw (main, known) in
    known_run ∙ ap (run sys []) (steps-setup flags namespace)

-- The manager runs exactly where the namespace is known and all that it needs is set up before, each
-- step answered with no error: the manager itself, the controllers of both kinds of issuers and of
-- the requests, with that namespace, and both probes.
pub main-started_iff :
    (sys : System) (flags : Flags)
    → (is_started (main sys flags).0 ≡ true) ↔ (
        (namespace : String) × ((resource_namespace sys flags ≡ ok namespace)
          × AllTaken sys [] (setup flags namespace)))
unfolding main
main-started_iff sys flags = (
  λ h. elim (Result-cases (resource_namespace sys flags)) [
    | inl (namespace, known) ↦ (
      namespace,
      (
        known,
        run-started sys [] (setup flags namespace) refl refl
            (ap (λ q. is_started q.0) (sym (main_planned sys flags namespace known)) ∙ h),
      ),
    )
    | inr (e, unknown) ↦ ground (arith, unknown, h)
  ],
  λ (namespace, (known, all)).
      ap (λ q. is_started q.0) (main_planned sys flags namespace known)
      ∙ run-start sys [] (setup flags namespace) all,
)

-- Where the namespace is known and the program exits with an error, the step that gave it is one of
-- the setup, in its order, or the run of the manager after all of it: main made the steps up to that
-- one and no later one, and each of the earlier ones was answered with no error.
pub main-StopsAt :
    (sys : System) (flags : Flags) (namespace : String) (step : Step) (e : Error)
    → resource_namespace sys flags ≡ ok namespace
    → (main sys flags).1 ≡ failed step e
    → StopsAt sys [] (setup flags namespace ++ start ∷ []) (main sys flags).0 step e
main-StopsAt sys flags namespace step e known h =
    let planned = main_planned sys flags namespace known in
    let all = setup flags namespace ++ start ∷ [] in
    subst (λ q. StopsAt sys [] all q.0 step e) (sym planned)
      (run-StopsAt sys [] all step e (ap (λ q. q.1) (sym planned) ∙ h))

-- Main returns exactly where the namespace is known and every step of the setup, in its order, and
-- the run of the manager after all of it are answered with no error.
pub main-finished_iff :
    (sys : System) (flags : Flags)
    → ((main sys flags).1 ≡ finished) ↔ (
        (namespace : String) × ((resource_namespace sys flags ≡ ok namespace)
          × AllTaken sys [] (setup flags namespace ++ start ∷ [])))
unfolding main
main-finished_iff sys flags = (
  λ h. elim (Result-cases (resource_namespace sys flags)) [
    | inl (namespace, known) ↦ (
      namespace,
      (
        known,
        run-taken sys [] (setup flags namespace ++ start ∷ [])
            (ap (λ q. q.1) (sym (main_planned sys flags namespace known)) ∙ h),
      ),
    )
    | inr (e, unknown) ↦ ground (arith, unknown, h)
  ],
  λ (namespace, (known, all)).
      ap (λ q. q.1)
        (main_planned sys flags namespace known
          ∙ run-finished sys [] (setup flags namespace ++ start ∷ []) all),
)
