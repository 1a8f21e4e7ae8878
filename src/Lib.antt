-- ===== src/Lib.antt =====
-- The AWS component providers: four providers that bring AWS resources to a desired state for a
-- Kubernetes component operator. Each is a package with a configuration and a status (config.go),
-- the calls of its AWS client (aws_*.go), and the handlers that the componentkit library calls in
-- turn (operations.go): `applyAction`, `checkApplied`, `deleteAction`, `checkDeleted`, and for RDS
-- `checkHealth`. A handler takes the configuration and the status, calls AWS, and gives a result
-- with the new status; all that lasts between two calls is the status and the state of AWS.
--
-- Files and sources:
--   IamRole/Config        iamrole/config.go
--   IamRole/Client        the IAM operations that iamrole/ calls
--   IamRole/Attachments, IamRole/Existence   the laws of these operations over the attached policies
--                         and over the roles that are there
--   IamRole/Calls         iamrole/aws_iamrole.go
--   IamRole/Reconcile     iamrole/aws_iamrole_reconcile.go
--   IamRole/Operations    iamrole/operations.go
--   IamRole/Runs, */Operations/Runs   which calls of the client are made, by the relations that they
--                         follow
--   IamRole/Operations/Sent, IamPolicy/Operations/Made   what a second application does where the
--                         service gives the documents in the URL encoding
--   IamRole/Moves         the abstract role, as the set of its policies
--   IamPolicy/Config      iampolicy/config.go
--   IamPolicy/Client      the IAM operations that iampolicy/ calls
--   IamPolicy/Documents, IamPolicy/Existence   the laws of these operations over the documents in
--                         effect and over the policies that are there
--   IamPolicy/Calls       iampolicy/aws_iampolicy.go, finding, creating and deleting a policy
--   IamPolicy/Versions    iampolicy/aws_iampolicy.go, the versions of a policy
--   IamPolicy/Operations  iampolicy/operations.go
--   Rds/Config            rds/config.go
--   Rds/Conversion        rds/conversion.go
--   Rds/Status, Rds/Errors, Rds/Calls   rds/aws_rds.go
--   Rds/Client            the RDS operations that rds/ calls
--   Rds/Operations        rds/operations.go
--   Rds/Health            rds/health.go
--   SecretPush/Config     secretpush/config.go
--   SecretPush/Client     the Secrets Manager operations that secretpush/ calls
--   SecretPush/Calls      secretpush/aws_secretsman.go
--   SecretPush/Build, SecretPush/Operations   secretpush/operations.go
--   SecretPush/Storage    the laws of these operations over the texts of the secrets
--   SecretPush/Kept       which functions leave these texts alone
--   */Register            register.go of each package
--   Registration          the part that the four register.go share
--   Lifecycle             what register.go hands to componentkit, and the calls of a controller
--   */Lifetime            the providers over the calls of a controller
--   Manager               cmd/main.go
--   Aws, Json             the functions that iamrole/ and iampolicy/ both declare with one text
--                         (toIAMTags, jsonEquals, isNotFoundError, isRetryable)
--   Go, Go/Flow           errors, their wrapping, and functions with early returns
--   Go/Along              relations between the worlds before and after a run, whatever its result
--   Toolkit               the results that a handler builds with componentkit
--   Prelude               tests, lists, signed integers, texts, sets of texts and their order
--   Samples               concrete services, with the theorems at concrete inputs
-- A function keeps its name, in snake case; a part of a longer function says which part it is.
--
-- How it is modelled. A Go function that calls AWS is a function of an unknown world: it gives its
-- result or an early return, and the next world. The clients are records of such functions and are
-- parameters, as are JSON parsing and printing, the retry checkers of the SDK, the region, and the
-- libraries of Kubernetes that cmd/main.go and register.go call.
-- Theorems that depend on what AWS does take laws over these parameters: `IsLawful` on attached
-- policies, `KeepsDocuments`, `EncodesDocuments`, `CountsVersions` and `RemovesVersions` on the
-- document and the versions of a policy, where a document is given in its URL encoding,
-- `NamesSecrets` and `RefusesUnnamed` on the answers of RDS, `KeepsAttachments` and `KnowsRoles` on
-- what changes the policies of a role and brings a role about, `EncodesTrustPolicies` on its trust
-- policy, `PutsInEffect` and `KnowsPolicies` on what changes a document in effect and brings a
-- policy about, `StoresSecrets`, `FindsSecrets`, `DeletesSecrets` and `ReadsBack` on the secrets
-- and their texts, `RegistersNames` on the registered names. Theorems that a call succeeds take
-- `Answers` and `Serves`, which say when the service refuses nothing. Samples has services that
-- obey them.
-- A controller may call the handlers in any order and lose the status of a result: the theorems on
-- its calls hold for all sequences of steps of Lifecycle, for one configuration.
-- Loops go over lists and need no fuel. A map is the list of its entries in the order of the
-- iteration; where the source sorts its keys, they are sorted here. `int32` and `int64` values are
-- only compared and handed on, and are unbounded integers. A formatted text is kept as its format
-- with the arguments.
--
-- Not modelled: logging; contexts; the answers of a listing past its first page, which the source
-- does not ask for; the parsing of the command line, so that `main` begins with the values of the
-- flags; the order in which componentkit calls the handlers, which is left open; the tests.
mod Prelude
pub mod Go
pub mod Aws
pub mod Toolkit
pub mod Json
pub mod IamRole
pub mod IamPolicy
pub mod Rds
pub mod SecretPush
pub mod Lifecycle
pub mod Registration
pub mod Manager
mod Samples
