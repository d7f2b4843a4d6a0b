-- ===== src/Lib.antt =====
-- Verification of the Thunder device plugin: the node daemon (internal/daemon) and the inventory
-- operator (internal/operator), as functions that pass the state of the outside world along.
--
-- The operator reads zones, servers and clients from the Thunder API, works out how many GPUs of each
-- type a zone offers, and publishes them as Kubernetes ResourceSlices. The daemon runs on each node:
-- it keeps the node enrolled with Thunder, and as a DRA driver it gives an allocated claim a Thunder
-- client by way of an enrollment token, and takes it back. The two meet in the ThunderClient objects:
-- the daemon writes and releases them, and the operator reaps those whose claim is gone.
--
-- What models what:
--   Daemon/Config     internal/daemon/config.go: configFromLookup is config_from_lookup.
--   Daemon/Status     internal/daemon/status.go: thunderStatus and the tests made on it.
--   Daemon/Zone       internal/daemon/runtime.go: resolveNodeAttributes, ensureThunderZone.
--   Daemon/Nvidia     internal/daemon/nvidia.go: nvidiaChecks and the version comparison.
--   Daemon/Reconcile  internal/daemon/reconcile.go: Defs has the reconciler and one pass (reconcile,
--                     ensureEnrolled, ensureLibthunder, ensurePlugin), Setup the two repairs (restart,
--                     enroll), Backoff the wait between passes.
--   Daemon/Driver     internal/daemon/driver.go: Types and Defs have the data and decodeAllocation,
--                     Claims has prepareOne and unprepareOne with each early return. A long handler is
--                     cut where the code calls out; prepare_allocation is prepareOne once the
--                     allocation is decoded, unprepare_claim is unprepareOne past its validation.
--                     Issuer has ThunderTokenIssuer.
--   Daemon/Clients    internal/daemon/store.go: KubernetesThunderClientStore and the objects that it
--                     writes; as_client_store gives it to the driver.
--   Daemon/Cdi        internal/daemon/store.go, cdihook.go: FileCDIDeviceStore (Device, Env), the
--                     arguments of its hook (Hooks) and ParseCDIHookArgs (Options).
--   Daemon/Hook       internal/daemon/cdihook.go, clientconfig.go: RunCDIHook (Container),
--                     clientConfigForClaim with the exchange of the token and its retries (Stage,
--                     Exchange), and the files (Files).
--   Daemon/Guest      internal/daemon/store.go: KubernetesGuestConfigStore.
--   Daemon/Program    internal/daemon/runtime.go: the driver with these stores, over the calls of the
--                     Thunder SDK, of Kubernetes and of the node; Live and Kept set the stores against
--                     the Accounts laws, Tests runs the driver on them.
--   Operator/Inventory  internal/operator/inventory.go: buildDesiredPools.
--   Operator/Labels     internal/operator/resourceslice.go: dnsLabel, truncateLabel and the names.
--   Operator/Slices     internal/operator/resourceslice.go: buildResourceSlices.
--   Operator/Publish    internal/operator/operator.go: nextGeneration, applyPool and what they use.
--   Operator/Orphans    internal/operator/clients.go: reapOrphanedClients.
--   Base                strings as lists of character codes, Go maps as association lists, errors,
--                       strconv.Atoi, paths and decimal numerals.
--
-- A call on the outside world (Kubernetes, the Thunder API, a command on the node) is a field of a
-- record that the definitions take, and takes and gives the world. Its error is a Fault, which keeps
-- what the code can ask of an error. What a theorem needs of such calls stands in a record of laws
-- (Accounts, OutsideLaws, Counts, ReadsOnly, Laws, ApiLaws, FileLaws, CopyLaws, HostLaws, CodecLaws, RequestLaws), and the
-- Tests modules give calls that keep them. SHA-256 is a parameter, and so are JSON, base64 and the
-- floating-point operations of the oversubscription target.
--
-- Bounds: counts of GPUs and of passes are natural numbers, far below the range of int64. Generations
-- and the reconciler's durations keep the wrap-around of int64; the hook's waits, of a few seconds in
-- nanoseconds, do not come near it. Strings are ASCII. No definition needs fuel: loops run over a list
-- or a number of rounds.
--
-- Not modelled: the text of log lines, process execution, HTTP and the start of the kubelet plugin,
-- which are I/O; the libthunder cache, the device classes and the operator's Sync as a whole.
pub mod Base
pub mod Daemon
pub mod Operator
