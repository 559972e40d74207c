-- ===== src/Lib.antt =====
-- Crypto asset tracker: a model of its services and of what makes them correct.
--
-- The program. Five Go services track the crypto coins of users and show them what they are worth.
--   * Socket reads trades and day statistics from the exchange over websockets and serves them by
--     gRPC streams.
--   * Aggregator opens a stream per followed symbol, publishes the latest price of each symbol every
--     second on a Redis channel named like the symbol, and sends the day statistics to Kafka.
--   * Kafka-ClickHouse takes the day statistics from Kafka and inserts them in batches.
--   * Profile keeps the users' portfolios in PostgreSQL, and pushes each connected user the value of
--     the portfolio when a price of one of its coins arrives from Redis. It asks Aggregator over HTTP
--     to start and stop the streams of the coins that somebody watches.
--   * Authorization keeps the accounts and sessions in PostgreSQL and issues tokens by gRPC.
--
-- The files. Paths are those of the repository.
--   Base.antt and Base/: shared helpers. Boolean tests and case lemmas (Tests), lists (Lists),
--     equality and texts as lists of bytes (Equality, Strings), Go's sets and maps (Sets, Dicts),
--     errors and results (Errors), what the database library promises (Db), whole numbers (Int), places
--     in lists (Places), the loggers of two programs (Logger).
--   Aggregator/StreamManager.antt: Aggregator/gateway/strman/stream_manager.go. `add_coin`,
--     `delete_coin` and `finish` are `AddCoin`, `DeleteCoin` and the deferred function of `start`;
--     `Step` interleaves them. Proofs: Invariant, Followers, Lost.
--   Aggregator/Models.antt, Converting.antt, Receiving.antt: Aggregator/models and
--     Aggregator/gateway/converting. Proofs: Converting/LatestPrices, Converting/Routing,
--     Receiving/Retries.
--   Aggregator/Pipeline.antt: the four workers of Aggregator/gateway/converting/
--     convertingDailyStat.go as interleaved moves. Proofs: Pipeline/Counted, Pipeline/Closing.
--   Aggregator/Producer.antt: Aggregator/adapters/kaffka/producer.go. Proofs: Producer/Batches.
--   Aggregator/Endpoints.antt: the HTTP handlers of Aggregator/cmd/main.go and the Redis writer of
--     Aggregator/adapters/reddis/writer.go. Proofs: Endpoints/Answers.
--   Aggregator/Getenv.antt, Config.antt, Main.antt: Aggregator/lib/getenv/getenv.go, the settings of
--     Aggregator/adapters, the goroutines and the end of Aggregator/cmd/main.go.
--   KafkaClickhouse/Repository.antt, Consumer.antt: Kafka-ClickHouse/internal/repository/repo.go,
--     adapters/clkhouse/client.go and adapters/kaffka/consumer.go. Proofs: Repository/Batches,
--     Consumer/Delivery.
--   KafkaClickhouse/Service.antt, Config.antt: Kafka-ClickHouse/cmd/main.go, the consumer and the
--     repository as interleaved moves, and the settings. Proofs: Service/Flow.
--   Profile/Models.antt, Subscriber.antt: Profile/internal/models, Profile/lib/errs and
--     Profile/storage/redis/redis.go.
--   Profile/Manager.antt: Profile/internal/websocket/manager.go, the hub of the connected clients.
--     `step` serves one event of `Run` and of the loop over Redis' messages, which hold one mutex.
--     Clients are in a heap, since the map of clients and the sockets' goroutines share them.
--     Proofs: Watchers, Channels, Clients, Prices, History, Reconnect.
--   Profile/Coins.antt: Profile/internal/repository/coins_repo.go and service/coins_service.go over
--     a database that is a parameter (Coins/Db). Proofs: Coins/Quantities, Coins/Rows, Coins/Update.
--   Profile/Users.antt, Server.antt, Http.antt, Middleware.antt: Profile/internal/repository/
--     users_repo.go and service/users_service.go; grpc/profile/server.go; handler/http/handler.go;
--     handler/middleware/middleware.go. Proofs: Server/Refusals, Middleware/Access.
--   Profile/Sockets.antt: the routes and `wsConnect` of handler/http/handler.go, and the goroutines
--     Writer and Reader of websocket/manager.go. Proofs: Sockets/Pumps.
--   Profile/App.antt: Profile/internal/app/app.go, cmd/main.go and storage/. Proofs: App/Shutdown.
--   Authorization/App.antt: Authorization/internal/app/app.go, cmd/main.go and storage/. Proofs:
--     App/Cleanup.
--   Authorization/Models.antt, Users.antt, Tokens.antt, Server.antt: Authorization/internal and
--     Authorization/lib. Proofs: Users/Accounts, Tokens/Rotation, Tokens/Expiry, Server/Credentials.
--   Socket/Connection.antt, Hub.antt: Socket/connsock/conn.go; connsock/connection_manager.go and
--     Socket/svr/server.go. Proofs: Connection/Backoff, Connection/Fallback, Hub/Sharing.
--   Socket/Hub/Streams.antt: the gRPC server of svr/server.go, its streams and the channels they
--     share. Proofs: Streams/Counted, Streams/Dividing.
--   Socket/Supervisor.antt: the goroutine of `Start` in connsock/conn.go and its readers as interleaved
--     moves. Proofs: Supervisor/Readers, Supervisor/Stopping, Supervisor/Repair.
--   Following.antt: the requests of Profile (`notifyAggregator`) at the endpoints of Aggregator, the
--     composition of both managers. Proofs: Following/Replay, Watched, Leaving.
--   Dashboard.antt: ClickHouse-Dashboard/main.go. Proofs: Dashboard/Pages.
--   The Tests modules hold databases in memory that meet the assumed laws, runs, and for each
--   theorem with hypotheses a use of it at concrete values.
--
-- Conventions. A critical section of a mutex is one step. A goroutine is a fold over what its `select`
-- receives, an end of the context among it. What an external library answers (gorm, Redis, Kafka,
-- ClickHouse, gRPC, bcrypt, JWT, the decimal library) is an argument or a record of operations, and what
-- is assumed of it is a record of laws over the rows that a table shows. Loops recur on the list or the
-- number of rounds that the code iterates over (10 probes of Kafka, 5 attempts to reconnect, the
-- configured retries), so no fuel of the model's own is needed.
--
-- Interleavings. Where goroutines share state (Aggregator/StreamManager, Aggregator/Pipeline,
-- KafkaClickhouse/Service, Socket/Supervisor, Socket/Hub/Streams, Profile/App) a run is any list of moves, each of which
-- belongs to one goroutine and ends at its next blocking operation; a move that cannot be made leaves
-- the state as it is. Channels have the capacities of the source.
--
-- Not modelled: the construction of servers and clients, deadlines and limits of the libraries, the
-- settings that cleanenv fills in, the text of log lines and SQL, and generated protocol code. Symbols
-- are ASCII: `to_lower` maps the letters A to Z only, as `strings.ToLower` does on such texts.
pub mod Base
pub mod Aggregator
pub mod Profile
pub mod Authorization
pub mod KafkaClickhouse
pub mod Socket
pub mod Following
pub mod Dashboard
