-- ===== src/Lib.antt =====
-- The e-commerce backend of this repository (NestJS, TypeScript), modelled and verified.
--
-- The API (src/orders) places orders in a database and publishes a message about each to a queue; the
-- worker (src/orders-worker) consumes the queue with retries and a dead-letter queue, and calls
-- `OrdersService.processOrderMessage`; a payments service (src/payments-service) answers over gRPC.
--
-- Files:
--   Base: shared names, JavaScript's truthiness and numbers, texts, maps, and the integers.
--   Errors: what the services throw, and results that may be such an error.
--   Entities, Database: the rows (src/*/entity) and the tables. TypeORM and PostgreSQL are not part
--     of the repository. Their operations are the fields of the record `Orm`, with what the code relies
--     on as its laws: a read gives what the tables hold, a unique index refuses a second row, a failed
--     transaction leaves the tables that it began with. `Database.Memory` has an instance.
--   Orders: src/orders/order.service.ts. `Create` has `create`, `Process` has
--     `processOrderMessage`, `Manage` and `Access` the other operations on one order.
--     What other requests commit while `create` waits is the argument `others`, and so is what
--     `publishToQueue` does with the message, since it may throw; the transaction itself runs on the
--     tables that it begins with. `Runs` and `Deliveries` put the operations one after the other: the
--     worker handles up to its prefetch (10) at once, and handlers that interleave are not modelled.
--     `Listing` and `Pages` are `getAllConnection` with the inputs and types of src/graphql; TypeORM's
--     query builder is the record `QueryBuilder`, of which `Rows` is an instance. `Events` and `Broadcast`
--     are src/orders/orders-events.service.ts, whose operators of rxjs are the record `Operators`, with
--     an instance in `Rxjs`. `Controller` is src/orders/order.controller.ts; `Response` and `Payment`
--     follow a request through it, to the database and through the client to the payments service;
--     `Journey` follows messages from the queue to a socket.
--   Payments: src/payments-service. A method takes the service object and returns it with its result.
--     Every method runs to its end without waiting, so that calls do not interleave. `Plain` is the
--     service without idempotency keys, which `Refinement` compares it with.
--   Rabbitmq, Worker: src/rabbitmq, with its start in `Topology` and its end in `Stop`, and
--     src/orders-worker. What is done to the channel is a list of
--     actions; whether the channel is absent, open or closed and the answer of amqplib's `sendToQueue`
--     are arguments. `Worker.Pipeline` puts the worker and `processOrderMessage` together, one message
--     after the other.
--   Grpc: the status codes that are used.
--   Client: src/orders/payments-grpc.client.ts and src/orders/errors. rxjs' `retry` is a parameter, with
--     its documented behaviour as a relation on its runs; gRPC between the processes is another. The
--     deadline is one for all attempts; the time that passes is the waits before the retries.
--   Auth: src/auth. bcrypt, JWT and passport are parameters.
--   Users, Products: src/users, src/products, and in `Loader` and `Resolver` the batch loader and the
--     resolver of src/graphql/dataloaders and src/graphql/order-item.resolver.ts. TypeORM's
--     repository of one table is the record `Repository` of Database, with an instance on lists.
--   Realtime: src/realtime/orders.gateway.ts. A handler is one step on one socket; what happens to a
--     socket is a list of steps, each subscription with the tables that it meets.
--   Scripts: `Args` and `Publish` are scripts/publish-order-message.js, whose message goes to the worker,
--     and `Check` is scripts/ws-check.ts. What the libraries do is an argument.
--   Seeds: src/seeds/seed.ts. The statements are the record `SeedDatabase`, with an instance on lists.
--   Files: src/files. `Storage` is s3.service.ts, where what AWS answers is an argument, `Service` and
--     `Views` are files.service.ts, with the tables as a parameter like `Orm`.
--
-- Times and random identifiers are arguments. Loops over lists are by recursion on the list. The
-- deliveries of one message (`Worker.Rounds.rounds`) run on fuel, and the attempts that are left to
-- the message are enough. The walk through the pages (`Orders.Pages.all_pages`) does too, and fails
-- where it runs out: one request more than there are matching orders is enough. Numbers from JSON are
-- decimals or not finite; the program's own counters are natural numbers, and quantities and stock are
-- integers without the bounds of a column's type.
--
-- Not modelled: logging, the decorators of GraphQL and HTTP with their validation, the inside of libraries
-- (JWT, bcrypt, rxjs, TypeORM, AWS, DataLoader), the wiring of modules, migrations and tests.
pub mod Base
pub mod Errors
pub mod Entities
pub mod Database
pub mod Orders
pub mod Grpc
pub mod Payments
pub mod Rabbitmq
pub mod Worker
pub mod Client
pub mod Auth
pub mod Users
pub mod Products
pub mod Realtime
pub mod Files
pub mod Scripts
pub mod Seeds
