-- ===== src/Lib.antt =====
-- disgord: a Go library for Discord bots, and a model of its core.
--
-- The program. A session holds a REST client (internal/httd) and a shard manager
-- (internal/gateway/sharding.go). The manager keeps one websocket client for each shard
-- (internal/gateway/client.go and eventclient.go). A client reads packets from Discord, hands them
-- to the handler of their operation code, and sends on the events to the reactor (reactor.go), which
-- runs the handlers of the bot. Commands of the bot go the other way, through the client's rate
-- limit (ratelimit.go) and its packet queue (queue.go). Queues and locks are in internal/util.
--
-- The files, each with the code that it models:
--   Base: shared names, Boolean tests, lists over native numbers, signed integers, maps, partial
--     code; Bits is on the bits of numbers, Text on texts as bytes.
--   Util/Shift: the shifting loops of queue.Pop, clientPktQueue.Try and rlBucket.Insert.
--   Util/Queue: internal/util/queue.go. Util/AtomicLock: atomicLock.go.
--   Util/TicketQueue: ticketQueue.go; Order is on who goes first, Abandon on `Delete`.
--   Gateway/Command: internal/gateway/util.go, opcode/opcodes.go, packets.go.
--   Gateway/PacketQueue: internal/gateway/queue.go; Valid is its invariant, Flush how it empties.
--   Gateway/RateLimit: internal/gateway/ratelimit.go; Window is on one bucket, Decisions on one request
--     to the limiter, against a log of times, Requests on histories of them.
--   Gateway/Client: the state of a client; Events are the packet handlers of eventclient.go, with
--     Sequence (their order) and Hello (how a session starts); Link is connecting and reconnecting
--     (client.go, eventclient.go), with Backoff and Stuck; Emit is the way of a command; Pulse is
--     the heartbeats (client.go), with Services and Answers; Receive is the goroutine that reads
--     (client.go, voiceclient.go), with Errors, Packets and Endings, and Send the one that writes, with
--     Order.
--   Gateway/Intents: internal/gateway/intents.go, intents_gen.go, and the intents of createClient and
--     NewEventClient; Tables has the tables, Derived is on the intents of a shard, Printed on String.
--   Gateway/Shards: the configuration and Emit of internal/gateway/sharding.go; Grouping and Emission
--     are on how a request is split, Cover on the configuration; Scaling is scale and redistributeMsgs, with Merge and Resend.
--   Gateway/Identify: shard_sync.go and metric.go; Pause is on how identifies are spaced.
--   Httd/Bucket: internal/httd/bucket.go, a bucket beside the global one; Locks is on who holds which
--     lock, Limits on how many requests pass, Global on the global bucket without X-RateLimit-Remaining.
--   Httd/Headers: internal/httd/header.go, the headers before a bucket reads them, as numbers that have
--     been parsed; Resets is on when a limit resets by the local clock.
--   Httd/Manager: internal/httd/bucket_manager.go; Maps is on its maps, Serving on one call,
--     Sharing on which endpoints use the same bucket.
--   Structs: Data has the structs of user.go, channel.go, role.go, emoji.go and guild.go; Copies is
--     DeepCopy (disgord.go, iface_copier_gen.go), Internals is updateInternals, Guilds the methods of
--     Guild on its slices, with Roles and RoleLaws on the removal of a role; Permissions is
--     GetPermissions of members and channels, with Collected and Overwrites; Messages is the
--     updateInternals of messages; Discriminators is on struct.go.
--   Sorting: sort_gen.go, with flag.go and the order of roles (role.go); Types has the types that it
--     knows, Orders is on its comparisons, Insertion on the sorting itself, Sorted on Sort.
--   Filters: std/msgfilter.go and std/utils.go; Prefixes is on StripPrefix.
--   Names: the checks of names and avatars in utils.go; Usernames is on ValidateUsername.
--   Cache: the basic cache of cache.go. State is its state, Channels, Members, Guilds and Roles are the
--     events, Reads the lookups; Replay is on channels over a history, RoundTrip and ReadBack on a
--     guild that is created and read, Chunks and ChunkReads on chunks of members, Counts and CountRuns
--     on MemberCount, RoleLists, RoleSteps and RoleRuns on roles over a history; Updates is on
--     what an update and a new channel change, and Keys, KeyedMembers, KeyedChunks, KeyedChannels,
--     KeyedGuilds, KeyedRoles and KeyedRuns are on the ids that all is filed under.
--   Paging: Messages is GetMessages (channel.go), with Returns, Pages and Ranges; Members is GetMembers
--     (guild.go), with Bound.
--   Reactor: reactor.go; Inputs is on registration, Runs on how often a handler runs. Reactor/Ready is
--     on BotReady and BotGuildsReady of gateway.go, over the same dispatch with their two controls.
--
-- How code becomes definitions. A method is a function from the state to the new state and what it
-- returns, under the source's name in snake case. A panic, and a channel that blocks for ever, is
-- `none`. A method that holds a mutex throughout is one step, and a history of concurrent calls is
-- a list of steps. `Add` of the packet queue takes its lock twice, and is two steps where other calls can
-- come between (PacketQueue/Valid, Send); Emit is on a queue that nobody else uses meanwhile. A hello
-- is sent on over a channel without a buffer, so that it blocks where nobody waits for it. What a method starts or sends beside is a list of effects. The clock, the
-- socket, the connect queue, a shutdown, single REST requests and the JSON library are arguments. JSON
-- that is read into an object that exists gives what has been written and whether it got through.
--
-- Bounds. Sequence numbers wrap as uint32; times and tickets are unbounded. The loops follow a
-- list, and the reconnect loop follows the list of its attempts; only the merging of waiting
-- requests runs on fuel, as many rounds as there are entries, each of which takes one off, and so do
-- the loops that fetch pages: a round of GetMessages takes up to 100 off the limit, a round of GetMembers
-- that goes on adds 1000 members.
--
-- Not modelled: a Disconnect from elsewhere while a reconnect waits for its next attempt; the voice client, the websocket and audio transport, and logging, which are input and
-- output; JSON forms, which are the JSON library's; generated code, but for the copies of the structs
-- of the cache, sorting and intents, and the generators; the REST endpoints, which only build requests,
-- but for those that fetch page by page, and a request itself (internal/httd/client.go) with the hash of
-- its endpoint (request.go); of the structures, User.PartialMember, Guild.VoiceStates and
-- Guild.Presences, and nil entries of slices of pointers; most of the structure of a message.
pub mod Base
pub mod Util
pub mod Gateway
pub mod Httd
pub mod Reactor
pub mod Structs
pub mod Paging
pub mod Cache
pub mod Names
pub mod Filters
pub mod Sorting
