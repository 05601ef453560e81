-- ===== src/Lib.antt =====
-- The OCI native ingress controller: the state that it builds from the Ingresses of a class, and the
-- routing rules.
--
-- The controllers of pkg/controllers reconcile an OCI load balancer with the Ingresses of an
-- IngressClass. Each pass starts with `BuildState` (pkg/state/ingressstate.go), which goes through
-- the Ingresses in the order of their names, resolves every path to a listener's port and a backend
-- set by the annotations and services (pkg/util/util.go), claims what the Ingress asks for both, and
-- refuses Ingresses that ask for different things. The controllers then read the store through its
-- getters. The routing policy controller (pkg/controllers/routingpolicy) resolves the paths again and
-- sorts them into the rules of each listener.
--
-- Common: maps and sets as lists, sorting, texts, Go's integers.
-- Exception (pkg/exception/util.go): errors as chains, and the result type of fallible code.
-- Kube: the fields of the Kubernetes objects that are read.
-- Util (pkg/util/util.go): Names, Annotation, HealthCheck, Session, Port and Class hold the
--   functions of these topics, Bounds the ranges of their results, Asked the ports
--   that an Ingress asks for, Selected the Ingresses of a class.
-- TlsPolicy (pkg/tlspolicy/tls_policy.go): the parser of TLS policies (Safe: what it accepts; Event:
--   the reason of an event for an error).
-- State (pkg/state/ingressstate.go): Types, Listener, BackendSet, Tls, TlsConfigs and Policies hold the
--   validations and merges; Path is the body of the innermost loop of BuildState, Build its loops,
--   Store the whole function and the getters. Path/Later, Path/Claimed and Build/Claims follow a claim
--   through the loops, Store/Agreement reads it back from the store.
--   BackendSet/Checkers and Shared are about several Ingresses on one backend set, TlsConfigs/Turns about
--   the order in which the Ingresses come.
-- RoutingPolicy (pkg/controllers/routingpolicy): the comparison of paths, the conditions, the collection
--   of the paths and the rules (Order, Sorted, Served).
-- TlsResolve (pkg/controllers/ingress/tls_policy.go): the policy of a listener or a backend set from its
--   annotation, the defaults and the current configuration (Laws, Total), and
--   the test whether a listener is sent again (Update).
-- LoadBalancer (pkg/loadbalancer/loadbalancer.go): Types are the SDK's structures, Program what a method
--   asks for, Client the cache, the wait for a work request and the run of a program. Lifecycle,
--   Policies, BackendSets, Listeners and ListenerDetails are the methods. Wait is about the wait, History,
--   Cache and Fresh about the cache, Etags, Guarded, Retried and Conflict about etags, Backends about
--   UpdateBackends, Every about all requests of a program. RoutingPolicy/Sync is ensureRoutingRules, on
--   these methods, and RoutingPolicy/Stale is about what it deletes.
-- IngressClass (pkg/controllers/ingressclass): the tags of the load balancer (Tags, Kept), and what the
--   controller of a class asks of the client of the load balancer (Reconcile, Protected).
-- Backend (pkg/controllers/backend/backend.go): the backends of a path, the default backend (Default) and
--   the readiness condition of a pod (Readiness).
-- NodeBackend (pkg/controllers/nodeBackend/nodeBackend.go): the nodes that are filtered and the backends
--   with node ports; Sync sends them, Ready and Ports are about them.
-- Webhook (pkg/podreadiness/webhook.go): the readiness gates of a new pod (Gates, Wanted).
-- Tests: concrete inputs.
--
-- A function that mutates a map of BuildState takes the map and returns the new one; `Draft` holds the
-- locals of BuildState and `StateStore` what outlives it, also on an error. Loops are recursions on
-- their lists. Integers of the API are ℤ; the conversion int32() wraps around. `sort.Slice` is an
-- insertion sort, which gives the result of any correct sort where the order is total. The listers, the SHA-256
-- sum and the JSON decoders are parameters; no law of theirs is assumed. Letters change case as in
-- ASCII, which is enough for host names and protocols.
--
-- A method of the client of the load balancer is a program: it returns, or asks for a look at a load
-- balancer, a wait or a change, and goes on with the answer. `run` runs it on the cache and the world,
-- where OCI and the clock are a parameter. A wait looks at most 31 times, which is enough: the
-- context ends after five minutes, and ten seconds pass between two looks. Methods run one after the
-- other.
--
-- Not modelled: the reconciliation of listeners and backend sets by the ingress controller, the creation
-- of the load balancer of a class and its finalizer, the patches of Kubernetes objects, pkg/certificate,
-- pkg/waf and the cleanup of certificates, which call the SDKs; logs, metrics, events, the work queues and
-- the mutex around the cache.
pub mod Common
pub mod Exception
pub mod Kube
pub mod Util
pub mod TlsPolicy
pub mod State
pub mod RoutingPolicy
pub mod TlsResolve
pub mod LoadBalancer
pub mod IngressClass
pub mod Backend
pub mod NodeBackend
pub mod Webhook
pub mod Tests
