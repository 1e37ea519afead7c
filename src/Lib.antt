-- ===== src/Lib.antt =====
-- tslib: the server and client libraries of the yyt platform. A game runs as an actor: messages
-- for it wait in a queue, and whoever gets the actor's lock drains the queue and hands the
-- messages to the game. The modules below follow the packages.
--
-- Common: names and tests that all modules share. Numbers are the native natural numbers.
-- Common.Map is the standard library's Map with string keys, as an association list in insertion
-- order.
--
-- Actor (packages/actor-system/src): Actor.Message is message.ts and environment.ts. Actor.Queue
-- is createInMemoryQueue of inMemory.ts, one list per actor; Actor.Lock is createInMemoryLock, the
-- set of the locked actors; Actor.Awaiter is createInMemoryAwaiter, whose promises are numbered in
-- the order of the calls of wait. Actor.Process is tryToProcess of process.ts, with
-- notifyCompletions of awaiting.ts. Its functions have the names of the source in snake case:
-- processLoop is process_loop, processQueueInLock is process_queue_in_lock with its loop rounds,
-- processInBulkMode is process_in_bulk_mode, the acquire and drain loops of tryToProcess are
-- acquire and cycles. Actor.Process.Exec gives the actions: a function of a world (an instant, the
-- queue of the actor, the trace of the calls made so far) that returns, throws or runs out of
-- fuel. Each await is a pause, in which time passes and messages of others arrive. What the
-- handler, the hooks, the lock and the heartbeat do at an instant is given by an environment:
-- whether a call throws, a call of the lock or of the queue included (which then leaves the queue
-- as it was), whether the lock is granted, whether it is reported as lost.
--
-- Each loop of tryToProcess runs on fuel. Every round passes an await, and the loops stop once a
-- limited lifetime is over, so fuel above the number of instants until then is enough. A one-shot
-- call without a limit drains the queue once; when others stop pushing, every round that goes on
-- takes a message off the queue, and fuel above the number of instants and messages until then is
-- enough. A call that is not one-shot and has no limit does not end, as the comment in process.ts
-- says.
--
-- RedisLock (packages/actor-system-redis/src/lock.ts): createRedisLock with its scripts.
-- try_acquire, release and renew take what becomes of the command on its way: answered, run with
-- the answer lost, or not sent; a call without an answer throws. The Redis server is an interface
-- with the documented behaviour of GET, SET NX PX, DEL and PEXPIRE; the end of a lease, an
-- eviction and a deletion by hand are a step in which the server forgets keys. RedisLock.Cluster
-- has any number of holders on one server, and the steps that they, the server and their processes
-- can take. randomUUID draws a token that no holder keeps.
--
-- RedisQueue (packages/actor-system-redis/src/queue.ts): createRedisQueue over an interface of the
-- Redis list commands; a codec is a parameter, and a value that does not decode makes the call
-- throw. flush takes what others do between its LRANGE and its LTRIM.
--
-- RedisPush (packages/naive-redis/src/subscriber/pushFrame.ts): parsePushFrame. A text is the list
-- of its UTF-16 code units, and a position in the buffer is what is left of it from there; what
-- JavaScript's Number makes of a text is a parameter. RedisPush.Printing is what a server sends.
--
-- RedisAwaiter (packages/actor-system-redis/src/awaiter.ts): the polling loop of wait. What each
-- poll finds and what the clock shows after it are functions of the number of the poll. The loop
-- runs on fuel, one unit for each poll; since it sleeps, at least a millisecond passes from one
-- poll to the next, and more fuel than the timeout has milliseconds is enough.
--
-- PeerMap (packages/gamebase-client/src/peer-map.ts): createPeerMap. A frame is applied by apply,
-- which returns the new map, the change for the caller and the calls of onViewViolation.
-- Coordinates and directions are parameters. PeerMap.Slice is the same map seen from one peer.
--
-- Gateway (packages/gamebase-client/src): Gateway.Backoff is createBackoff of backoff.ts and
-- Gateway.CloseCodes is classifyClose of close-codes.ts. Gateway.Socket is createGatewaySocket of
-- gateway-socket.ts, a machine whose state has the variables of the closure and the trace of what
-- it did; Gateway.Socket.Events has the events of its sockets, its timers and its caller, in any
-- order. Its sockets are numbered. A handler may call close while it runs, and it may throw, which
-- ends the function that emits the event. The URL, the WebSocket and the JSON of a message are not
-- modelled: an event says what the code finds.
--
-- GameKit.Turns (packages/game-kit/src/turns.ts): createTurnGame. GameKit.Turns is the check of a
-- log and its chunks, GameKit.Turns.Game the state with accept, GameKit.Turns.Resync the exchange
-- of logs and the end of a game, GameKit.Turns.Lane the handlers of the messages,
-- GameKit.Turns.Startup what a game begins with and GameKit.Turns.Play everything that can happen
-- to it, as events. A handler that throws returns true beside its state. Each await counts, and an
-- environment says whether the timer of a request expires or the game is disposed of during it,
-- and whether the awaited call rejects. The room is as it is when an event comes. The functions of
-- json.ts are parameters: the hash of a move, the lengths and the comparisons of JSON; messages
-- have the types to which the source casts them. elapsed is left out, and so is what is received
-- before initialized has settled, and the message that the game is over which follows the last
-- chunk of an answer. apply is taken not to throw an error of its own with the code
-- payload_too_large.
--
-- EventBroker (packages/event-broker/src/event-broker.ts): createEventBroker. A fire is split at
-- the awaits of its handlers; registrations change and other fires run in between. Registrations
-- are numbered, which stands for their identity as objects.
--
-- AllTogether (packages/gamebase-all-together/src/services): processEnter, processLeave,
-- processEnterLeave. AllTogether.Stage is doInStageWait with the default announcement of
-- createStageAnnouncer.ts and broadcastStage.ts and the ticker of packages/lambda-
-- gamebase/src/support/createTicker.ts. Its loop runs on fuel, one unit for each round; since a
-- round sleeps, at least a millisecond passes, and a unit for each millisecond of the stage is
-- enough. The objects of context.users are also the values of context.connectedUsers: a value is
-- an index of the list of users, so that a change of a user is seen from both.
--
-- Repository (packages/repository/src): Repository.Memory is createInMemoryRepository of
-- memory.ts; the hash of its tokens is a parameter. Repository.Interface is CasRepository of
-- repository.ts, with what its comments promise as laws, and Repository.Memory.Cas fills it.
-- Repository.Document is editDocument of document/write.ts over the interface, and
-- Repository.Document.Collections the lists and maps of document/list.ts and document/map.ts. What
-- other writers do between the read and the write of an attempt is a parameter. The retries
-- recurse on the number that is left, as the source counts them.
--
-- Not modelled: log lines; the other packages, which are HTTP and socket clients, Lambda handlers,
-- loggers, the rest of the game kit; the event loop and the sending side of the actor system; the
-- truncate of a document; the running stage of a game.
pub mod Common
pub mod Actor
pub mod RedisAwaiter
pub mod RedisLock
pub mod RedisPush
pub mod RedisQueue
pub mod EventBroker
pub mod GameKit
pub mod Gateway
pub mod PeerMap
pub mod AllTogether
pub mod Repository
