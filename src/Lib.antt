-- ===== src/Lib.antt =====
-- horizon-issuer is a cert-manager issuer: a Kubernetes controller that obtains certificates from
-- an EverTrust Horizon instance for cert-manager's CertificateRequest objects.
--
-- The program has two reconcilers. The one of internal/controller/issuer_controller.go checks that
-- the Horizon instance behind an Issuer or ClusterIssuer answers, and keeps its Ready condition.
-- The one of internal/controller/certificaterequest_controller.go submits a request to Horizon
-- (internal/issuer/horizon/issuer.go), polls it, stores the certificate, and revokes it on deletion.
-- Both use internal/issuer/util/util.go and make their client in internal/issuer/horizon/util.go.
--
-- Files, and the code that each models:
--   Common, Common/Text, Common/Dict, Common/Tests: helpers; Go's strings and maps.
--   Errors: Go's error values, with fmt.Errorf and errors.As.
--   Api: the types of api/v1beta1, and the Kubernetes and cert-manager objects that are read.
--   Scheme: the types that api/v1beta1 registers with the scheme.
--   Sdk: the data of the Horizon SDK.
--   Effects: the calls that a reconciler makes, and the monad in which the Go methods run. A
--     method has one object in memory, may panic, and may have a deferred function. A state is the
--     object in memory and the list of all calls so far, the last one first.
--   Effects/Env: everything outside the repository, as parameters. What the API server, Horizon,
--     DNS and the clocks answer may depend on all calls so far, so that they may change their mind
--     at any time. The functions of cert-manager, controller-runtime and apimachinery that the
--     program calls are parameters too; theorems that need their documented behaviour take it as a
--     record of laws (IssuerUtil.Laws.StatusConditionLaws,
--     RequestController.Finish.Laws.RequestConditionLaws).
--   Effects/Count: counting calls of a kind.
--   IssuerUtil: internal/issuer/util/util.go (GetSpecAndStatus, CertificateFromRequest,
--     SetReadyCondition, GetReadyCondition, IsReady).
--   Horizon/Annotations, Horizon/Requests, Horizon/Polling: internal/issuer/horizon/issuer.go
--     (SubmitEnrollRequest, SubmitRenewRequest, RevokeCertificate, handleFailedRequest;
--     UpdateRequest and the handlers that it dispatches to).
--   Horizon/ClientConfig, Horizon/ApiError, Horizon/TrustChain: internal/issuer/horizon/util.go
--     (ClientFromIssuer; formatAPIError, formatBasicError; buildPemTrustchain).
--   Horizon/Health: internal/issuer/horizon/health.go.
--   IssuerController: Reconcile of issuer_controller.go; update_status is its deferred function.
--   RequestController: Reconcile of certificaterequest_controller.go, cut where the Go code returns
--     early: reconcile, reconcile_owned, reconcile_with_secret, reconcile_with_client,
--     reconcile_unsettled. RequestController/Process is what stands below its `defer`,
--     RequestController/Finish the deferred function, RequestController/Deletion handleDeletion,
--     RequestController/Metadata certificateMetadata, RequestController/Lookup issuerFromRequest
--     and ingressFromCertificate. Their other children, and the files called Laws, hold proofs.
--   RequestController/Returns: the pointers that the reconciler dereferences.
--   RequestController/Lifecycle: an API server that stores what it is sent (`stored_after`: Update
--     writes all but the status, Status().Update the status alone), and a request over any number
--     of reconciliations (`rounds`). RequestController/Lifecycle/Phases is the machine that a request
--     goes through.
--   Composition: the two reconcilers on one API server.
--   Manager: cmd/main.go, from the values of the flags to the run of the manager, with
--     getInClusterNamespace. A program is the list of the calls that may fail and end it.
--   DeepCopy: api/v1beta1/zz_generated.deepcopy.go, on a heap of cells with addresses: the structs as
--     they lie in memory (DeepCopy/Heap), DeepCopyInto (DeepCopy/Pointers, Template, Spec, Objects),
--     DeepCopy and DeepCopyObject (DeepCopy/Entry). A function that fills `out` gives what it holds
--     then. The other files are about what a copy is (Copied) and owns (Separate).
--   Tests: tests, and each theorem below at concrete values where its hypotheses hold.
--
-- Loops are structural recursions over lists, so nothing needs fuel. A Go map is an association list
-- in the order in which a `range` meets its keys; theorems about maps hold for every order. A nil
-- map, a nil pointer and a failed type assertion panic where the Go code does. Times are numbers.
--
-- Not modelled: the parsing of the flags; the registration of the types of other groups; logging;
-- several reconciliations at once, which controller-runtime does not run by default for one
-- controller; certificates and keys, which only libraries look into.
pub mod Common
pub mod Errors
pub mod Api
pub mod Sdk
pub mod Effects
pub mod Horizon
pub mod IssuerUtil
pub mod IssuerController
pub mod RequestController
pub mod Manager
pub mod Tests
pub mod DeepCopy
pub mod Composition
pub mod Scheme
