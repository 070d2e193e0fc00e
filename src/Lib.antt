-- ===== src/Lib.antt =====
-- A verification library for go-chassis, a framework for microservices. A call of a consumer goes
-- through a chain of handlers: routing chooses the tags of the instances that may serve it, load
-- balancing chooses one of these instances and retries, and fault injection and the rate limiter
-- may delay or refuse it. Discovery fills the cache of instances that load balancing reads.
--
-- The parts, the code that each is about, and how its state and operations correspond to it:
-- - WeightPool: core/router/weightpool/weightpool.go. The record Pool is the Go struct; new_pool,
--   pick_one and refresh_gcd are NewPool, PickOne and refreshGCD; SafePool with get, set and
--   reset is the cache of pools by destination.
-- - Router: core/router/router.go, with the records of core/config/model/router.go in Config.
--   route, sort_rules, fit_rate, matches, source_match and is_match are Route, SortRules, FitRate,
--   Match, SourceMatch and isMatch; Router.Sort is QuickSort, with its swaps in place. The state is
--   the templates, the pools and the rules by destination. Router asks WeightPool for the tags.
-- - Rules: ValidateRule of core/router/router_config.go as validate_rule, and LabelOfTags and
--   IsSubsetOf of pkg/util/tags/tags.go.
-- - RuleSource: core/router/cse; dark_launch_rule_to_route_rule is DarkLaunchRule2RouteRule, and event
--   and refresh are Event and refresh on the table of rules.
-- - LoadBalancer: core/loadbalancer, over the instances of core/registry/struct.go in Instance.
--   round_robin, random_pick, session_pick and weighted_pick are Pick of the four strategies, and
--   pick is the counter of the round robin, a read and a write of which each is under a lock; Filters is filter.go, Build is BuildStrategy, and
--   Latency is the statistics of struct.go and latency_strategy.go.
-- - Fault: core/fault/fault_injection.go, with its package variables as the state;
--   validate_and_apply_fault and apply_fault_injection are ValidateAndApplyFault and
--   ApplyFaultInjection.
-- - QpsLimiter: core/qpslimiter, with the map of limiters as the state.
-- - IndexCache: core/registry/cache_index.go; set, get and delete are Set, Get and Delete.
-- - Refresh: RefreshCache of core/registry/healthz.go as refresh_cache, on the cached lists alone;
--   whether HealthCheck takes an instance, and whether an empty cached list is a nil one, are parameters.
--   HealthChecks is the checker of that file, with
--   check_pack and remove_from_cache for check and removeFromCache, on the cache of instances.
-- - Chain: core/handler/handler_chain.go and the table of handlers of core/handler/handler.go; next,
--   create_chain and parse_handlers are Next, CreateChain and parseHandlers. Handlers has the rate
--   limiters, the fault injection and the load balancing without retries as handlers of a chain.
-- - Endpoint: getEndpoint of core/handler/loadbalance_handler.go as get_endpoint, over the table of
--   strategies in LoadBalancer.Strategies, the filters and what discovery finds.
-- - ServiceCenter: core/registry/servicecenter. Events has watch and its actions, Pull has
--   pullMicroserviceInstance, both on the cached lists; the conversions of instances are in
--   ServiceCenter itself. Finding has FindMicroServiceInstances, and Contracts the schemas of services,
--   both of servicecenter.go; SchemaIndex is MakeSchemaIndex of cache.go. Caches is the loop that deletes outdated keys.
-- - Heartbeat: core/registry/heartbeat.go with its tasks, and RegisterServiceInstance of
--   core/registry/servicecenter/servicecenter.go; do_heart_beat is DoHeartBeat with its retries.
--   Registrator is the rest of the registration in that file.
-- - Settings: Balancing and Breakers are the caches of control/archaius/transfer.go with the panel,
--   Circuit is core/config/cb_config.go, and Levels is core/config/fault_injection_config.go.
-- - Sessions: session/session_manager.go; save_session_id_from_context is SaveSessionIDFromContext.
-- - Retry: handleWithRetry of core/handler/loadbalance_handler.go, over what getEndpoint gives and
--   what the rest of the chain answers.
-- - Highway: the protocol of client/highway and server/highway. Frames and Messages are
--   highway_msgobj.go: serialize_req, de_serialize_frame, de_serialize_req, serialize_rsp and
--   de_serialize_rsp are SerializeReq, DeSerializeFrame, DeSerializeReq, SerializeRsp and
--   DeSerializeRsp; a connection is the parts in which its bytes arrive. Client is the map of the calls
--   that wait, of highway_base_client.go and client_conn.go: begin_send and end_send are Send up to its
--   wait and from there, process_msg is processMsg, and Step is what can happen. Server is
--   highway_conn.go: handle_frame is handleFrame, and create_conn and close_conn keep the counter.
--   Pool has the connections of a client: open_client, connection_of and get_client are Open, the
--   beginning of Send, and GetClient. Receiving has msgRecvLoop and Hello of both sides, with what a frame
--   object holds after a read that failed.
-- - LogRotate: core/lager/logrotate.go; log_rotate, do_rollover, do_backup and remove_exceeded_files are
--   LogRotate, doRollover, doBackup and removeExceededFiles, on a disk of files by path.
-- - Prelude: numbers, lists, and maps as lists of entries. Tests: the theorems at concrete inputs.
--
-- Numbers: an `int` is an integer or, where it cannot be negative, a natural number; the counters
-- of the round robin and the identifiers of Highway wrap round at 64 bits, the lengths in its frames
-- at 32, and the other sums and products stay far below that.
-- Fuel: gcd has one round more than its second argument, PickOne as many rounds of its loop as
-- there are tags, the loop of the partition as many as there are elements between its ends, and
-- QuickSort as many levels as there are rules. The theorems on new_pool, pick_one, sort_slice and
-- route show that this is enough. A chain of handlers has one round more than there are handlers, and
-- the retries of a heartbeat have the rounds that are given. The loops of Highway that receive have
-- more rounds than there are bytes, or frames, to read; their theorems show that this is enough. A
-- result is `none` or `panics` where the code panics.
--
-- Parameters: POSIX regular expressions, random numbers, the library of the cache of sessions, discovery, the
-- order of version numbers, the parsing of URLs, the configuration library, what the health checks
-- answer, the answers of servers, the encoding of protocol buffers, and the disk of the logs. A mutex that
-- the code holds for the whole of an operation makes it one step; what happens between two locks, or
-- where the code holds none, is not modelled.
-- Not modelled: the servers and clients of REST and gRPC, the loop that accepts connections of
-- Highway, the provider that calls the methods of a service by reflection, the registry plugins of a
-- file and a mock, the requests of the service center that only pass a call on, configuration files,
-- the cookies of HTTP responses, the registration of the sources of routing rules, metrics, tracing,
-- security, and the copies of other projects under third_party. Most of it is input and output, or
-- calls of libraries whose code is not in the repository.
pub mod Prelude
pub mod Config
pub mod WeightPool
pub mod Router
pub mod Instance
pub mod LoadBalancer
pub mod Fault
pub mod QpsLimiter
pub mod IndexCache
pub mod Retry
pub mod Chain
pub mod Caches
pub mod Endpoint
pub mod ServiceCenter
pub mod Heartbeat
pub mod Settings
pub mod Sessions
pub mod RuleSource
pub mod Registrator
pub mod Highway
pub mod LogRotate
pub mod Handlers
pub mod Rules
pub mod Refresh
pub mod HealthChecks
pub mod Tests
