-- ===== src/Lib.antt =====
-- chef-infra: a gRPC server that authenticates users and builds and deploys front-end projects.
--
-- Parts, and the files that model them (paths from the repository's root):
-- - Config: the configuration records of internal/config/types.go.
-- - Auth: internal/auth. Auth/Types has the user, the claims and the errors; Auth/Repository the
--   interface `Repository` with its contract, which Auth/MemoryRepository (mock_repository.go)
--   keeps; Auth/Gorm is repository.go over the database calls, and keeps the contract over a table
--   that keeps its own (Gorm/Laws); Auth/Libraries the bcrypt, JWT and clock parameters with what
--   their documentation promises (`IsSound`); Auth/Service has the methods of service.go under their
--   names; Auth/Handler the four gRPC methods of handler.go with their status codes;
--   Auth/Handler/Goroutines is `Register` again, one step for each call that another request can come
--   between, with any number of requests at once; Auth/Middleware is middleware.go; Auth/Wiring has
--   the constructors, and `NewModule` of module.go.
-- - Server: the interceptor of internal/server/server.go over internal/api/endpoints.go.
--   Server/Lifecycle is the rest of server.go, Server/Loading is config.go and logger.go, and
--   Server/Sessions puts the interceptor and the handlers together.
-- - Database: internal/database. App: the hooks of internal/app/module.go, and of the two modules
--   that it includes, in the order in which fx gets them. App/Provided has what its constructors make
--   and the main function of cmd/chef-infra/main.go; App/Sessions uses the handler and the middleware
--   that it provides.
-- - Pipeline: internal/pipeline/pipeline.go with types, config and build_context.go. The goroutine
--   of `StartBuild` is a program counter (Pipeline/Goroutine): one step per statement that another
--   goroutine can come between. `CancelBuild` is cut into its statements likewise: the lock that it
--   holds does not keep the goroutine from writing its build. `perform_all` runs any sequence of calls
--   and of steps of goroutines and of `CancelBuild`.
--   Pipeline/Execution is `executeBuild` as one sequential program with deferred calls, for a
--   goroutine that runs undisturbed. Pipeline/NodeJsBuilder is builder/nodejs_builder.go over docker
--   and the file system (NodeJsBuilder/Outside). Pipeline/Wiring is builder/factory.go,
--   deployer/factory.go and module.go: which parts a pipeline gets. Pipeline/Metrics is metrics.go.
--   Pipeline/NodeJsValidator is validator/nodejs_validator.go; Pipeline/Kubernetes is
--   deployer/k8s_deployer.go over the interface of deployer/k8s_client.go (Kubernetes/Client), with
--   the real client in Kubernetes/RealClient; Pipeline/Static is deployer/static_deployer.go;
--   Pipeline/Cleanup is cleanup.go.
-- - Migration: internal/migration. The search for the module root, the `Migrator` methods and the
--   start hook. Migration/Command is cmd/migrate/main.go.
-- - Base: shared text, list, dictionary, result and state-passing helpers.
-- - Tests: concrete runs of the definitions, and one instance of each result.
--
-- The parts meet at interfaces: the handler calls the service, the service a `Repository`, the
-- interceptor the middleware, which reads tokens as the service does. The pipeline calls a builder
-- factory, a deployer and a validator, which are records of operations; Pipeline/Wiring fills them.
-- The application starts by running the hooks, the migration's before the server's.
--
-- State is passed explicitly: `Exec E S A` is `S → Result E A × S`. A clock value is a number that
-- the world yields and that moves on each time it is read.
--
-- Fuel: `DownTo` loops while the database is above the target. Each round that goes on lowers the
-- version, so fuel above the version of the database is enough; the theorems about it say so.
-- All other loops are structural: the search for go.mod goes along the components of a path, and
-- neither a goroutine nor a request of `Register` has a loop.
--
-- Outside, as parameters: bcrypt, the JWT library, the mail address parser, the JSON decoder, gorm,
-- goose, viper, zap, fx, tar, docker, sort.Slice, strconv.Atoi, the kubernetes cluster, the file
-- system, the network, the clock, and the builder, deployer and validator that a pipeline is given.
-- What their documentation promises stands in the records `IsSound`, `RefusesExpired`,
-- `IsLawful`, `IsUnique`, `IsTable`, `IsGoose`, `ReadsFiles`, `IsCluster`, `IsSort`, `IsFiles`,
-- `IsDisk`, `IsDaemon`, `IsCopying`, `IsWalking`, `HasRemoval` and `IsLifecycle`. `IsWalking` says
-- what `filepath.Walk` calls on a directory whose tree of entries the callback leaves as it is, without
-- symbolic links; `IsLifecycle` that a start of fx which fails stops what it started.
--
-- Not modelled: logging, file handles and their closes, how fx finds the constructor of a parameter
-- and waits for a signal, the SQL of migrations/ and the scripts. The constructors run in the order in
-- which the hooks need what they make.
pub mod Base
pub mod Config
pub mod Auth
pub mod Server
pub mod Pipeline
pub mod Migration
pub mod Database
pub mod App
mod Tests
