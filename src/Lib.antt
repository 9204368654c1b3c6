-- ===== src/Lib.antt =====
-- A verification library for azurerator, the Kubernetes controller that keeps applications of
-- Azure AD as the custom resources `AzureAdApplication` describe them.
--
-- The parts of the program, and the files that model them:
--   * Permissions (pkg/azure/permissions): the set of permissions of an application, `Permissions`.
--     The roles and scopes made from it (pkg/azure/client/application/approle, permissionscope) are
--     `AppRoles` and `PermissionScopes`. The two Go packages declare the same maps, which
--     `Grants` has once, over the interface `Grant` that both fill. `SharedIds` relates the two.
--   * Annotations (pkg/annotations): the queue of resync requests in an annotation.
--   * Registered, PasswordCredentials, KeyCredentials (pkg/azure/client/passwordcredential and
--     keycredential): rotation, revocation and validation of credentials, the loops that the two
--     packages share in `Registered`.
--   * Resources (pkg/azure/resource) and Assignments (pkg/azure/client/approleassignment and
--     serviceprincipal/approleassignments.go): who is assigned a role, and the requests for it.
--   * IdentifierUris, RedirectUris, OptionalClaims and GroupMembershipClaims
--     (pkg/azure/client/application, the packages of these names): single fields of an application.
--   * ApplicationClient (pkg/azure/client/application, pkg/azure/util): the requests for an
--     application, with what they send in ApplicationClient/Requests and the registration and update
--     in ApplicationClient/Registration.
--   * ServicePrincipals (pkg/azure/client/serviceprincipal, oauth2permissiongrant): service
--     principals, their owners and policies, and the permission grants.
--   * PreAuthorizedAppClient and Groups (pkg/azure/client/preauthorizedapp, group): who may call the
--     application, and which groups are assigned to it.
--   * AzureClient (pkg/azure/client/client.go, credentials.go): the composition of all these, as the
--     interface that Reconciler asks for.
--   * Synchronizer and Sweeper (pkg/synchronizer): which applications an event, or the periodic
--     sweep, marks for a resync.
--   * SecretData (pkg/secrets) and SecretsReconciler (pkg/reconciler/secrets): the data of a secret,
--     the credentials and key IDs that are read back from secrets, and their life in the cluster.
--   * Options (pkg/transaction/options, pkg/customresources): what a reconciliation is to do.
--   * Reconciler and Reconciler/Finalizer (pkg/reconciler), and Controller (controllers): one
--     reconciliation, from the read of the resource to the write of its status.
--   * Crd and Graph: the records of the custom resource and of Microsoft Graph, with the fields that
--     the code reads or writes.
-- The functions keep their Go names in snake case. `Base` has what they share: maps, text, and
-- calls that may fail over the state of the systems outside (`Exec`).
--
-- What is assumed, and how Go is read:
--   * Requests to Microsoft Graph and Kubernetes are records of operations over an arbitrary state;
--     a theorem that needs one to behave states it as a hypothesis.
--   * The order in which Go ranges over a map is an argument, `Iteration`: any rearrangement of the
--     entries. Identifiers from the package `uuid` are an argument too.
--   * Times are natural numbers of seconds. A pointer that is followed without a test is a plain
--     value, one that is tested is an `Option`; where the code can meet a nil pointer at an
--     interface of the model, it fails with `nil_pointer`.
--   * Every loop is over a finite list, so the model needs no fuel.
--   * Error messages, logs, metrics, events to the cluster, pauses and deadlines are left out.
--   * Texts are encoded, decoded and compared by the libraries of Go as parameters say.
-- Not modelled: configuration, authentication, cryptography and metrics, which are calls of
-- libraries; the fakes for tests; the set-up of the manager and the loops in the background.
pub mod Base
pub mod Crd
pub mod Graph
pub mod Permissions
pub mod Grants
pub mod AppRoles
pub mod PermissionScopes
pub mod SharedIds
pub mod Annotations
pub mod Registered
pub mod PasswordCredentials
pub mod KeyCredentials
pub mod Resources
pub mod Assignments
pub mod IdentifierUris
pub mod RedirectUris
pub mod OptionalClaims
pub mod GroupMembershipClaims
pub mod ApplicationClient
pub mod Synchronizer
pub mod Sweeper
pub mod Options
pub mod Reconciler
pub mod ServicePrincipals
pub mod PreAuthorizedAppClient
pub mod Groups
pub mod AzureClient
pub mod SecretData
pub mod SecretsReconciler
pub mod Controller
pub mod Tests
