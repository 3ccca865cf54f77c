-- ===== src/Tests/Manager.antt =====
-- The program's setup on concrete flags.
use horizon_issuer.Common.{true, List, ◌++◌, Option, some, none, [], ◌∷◌, ◌≡◌, ◌↔◌, String, refl}
use horizon_issuer.Errors.{Error, plain, ok}
use horizon_issuer.Manager.{
  Step, start, System, finished, default_flags, steps, main, run, resource_namespace,
  get_in_cluster_namespace, webhook_server_options, metrics_server_options,
}
use horizon_issuer.Manager.Runs.{StopsAt, AllTaken, is_started}
use horizon_issuer.Manager.Laws.{
  offered, servers-http2, main-StopsAt, main-finished_iff, setup, main-started_iff,
}

-- The manager does not start.
abbrev answers : List Step → Step → Option Error
answers before start = some (plain "no lease")
answers before _ = none

abbrev in_cluster : System
in_cluster = record {
  stat = none;
  is_not_exist = λ e. true;
  read_file = ok "horizon";
  answer = answers;
}

servers-http2_example :
    (offered (webhook_server_options default_flags).tls_opts ("h2" ∷ []) ≡ ("http/1.1" ∷ []))
    × (offered (metrics_server_options default_flags).tls_opts ("h2" ∷ []) ≡ ("http/1.1" ∷ []))
servers-http2_example = servers-http2 default_flags ("h2" ∷ [])

main-started_iff_example : (is_started (main in_cluster default_flags).0 ≡ true) ↔ (
    (namespace : String) × ((resource_namespace in_cluster default_flags ≡ ok namespace)
      × AllTaken in_cluster [] (setup default_flags namespace)))
main-started_iff_example = main-started_iff in_cluster default_flags

main-StopsAt_example :
    StopsAt in_cluster []
      (setup default_flags "horizon" ++ start ∷ [])
      (main in_cluster default_flags).0
      start
      (plain "no lease")
unfolding main run steps resource_namespace get_in_cluster_namespace
main-StopsAt_example =
    main-StopsAt in_cluster default_flags "horizon" start (plain "no lease") refl refl

main-finished_iff_example : ((main in_cluster default_flags).1 ≡ finished) ↔ (
    (namespace : String) × ((resource_namespace in_cluster default_flags ≡ ok namespace)
      × AllTaken in_cluster [] (setup default_flags namespace ++ start ∷ [])))
main-finished_iff_example = main-finished_iff in_cluster default_flags
