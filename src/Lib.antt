-- ===== src/Lib.antt =====
-- A verification library for the labs of the repository: the sharded key-value store and its
-- consistency checker and stress tester (lab4), the video recommender with its services and its load
-- generator (lab1), and of the Raft lab (lab3) the log replication, the persister, the simulated
-- network and the checks of the test harness.
--
-- Parts and files:
-- * Kv is lab4/kv. Kv/Shard is one shard's storage with its TTL monitor (kvShard in server.go),
--   Kv/Server the handlers of a node (KvServerImpl), with Kv/Server/Update for handleShardMapUpdate
--   and Kv/Server/Lifecycle for MakeKvServer and Shutdown. Kv/ShardMap is shardmap.go, with
--   Kv/ShardMap/Listeners for the listeners and Update. Kv/Sharding is util.go, Kv/Client client.go,
--   Kv/ClientPool clientpool.go, Kv/FileShardMap file_shardmap.go. Kv/Cluster joins the client library
--   and the handlers of several nodes.
-- * Checker is lab4/checker/checker.go, and Stress lab4/cmd/stress/tester.go, whose requests go through
--   the checker.
-- * VideoRec is lab1/video_rec_service/server_lib/server_lib.go: Batches the loop over batches,
--   Fallback fallBack, TopVideos GetTopVideos with fetchVideos and GetStats, Trending
--   fetchTrendingVideos, Startup the constructors; Ranker is lab1/ranker/ranker.go.
-- * Backend has the services behind it: Users lab1/user_service/server_lib/server_lib.go, Videos
--   lab1/video_service/server_lib/server_lib.go, Injection lab1/failure_injection/failure_injection.go,
--   Mocks the two mock clients, and Dedup the function deduplicateIds. Backend/Random has the data with
--   which the two services start: its children Users, Videos and Consistent say what holds of it.
-- * LoadGen is lab1/cmd/loadgen/loadgen.go with the user id of lab1/cmd/frontend/frontend.go, which ask
--   the services for users.
-- * Raft is lab3/raft/my_util.go: Raft/Append is AppendEntries, Raft/Leader makeAppendEntriesArgs,
--   what sendAppendEntries makes of a reply, and updateCommitIndex.
-- * LabRpc is lab3/labrpc/labrpc.go: the network, with Servers for Server and Service, Requests for
--   processReq and Client for Call. Deletion, Delivery and RoundTrip say what a call gives.
-- * Harness is lab3/raft/config.go: the checks of applied entries, leaders and terms, with
--   Harness/Wiring for connect and disconnect, which set the ends of LabRpc, Harness/Restart for crash1
--   and start1, which give a server a new persister, and Harness/Rounds for wait and one.
-- * Persister is lab3/raft/persister.go. Rotation is the loop over xs[(index+i)%len(xs)] that the
--   client library and the server share; Rpc has the errors and replies of gRPC handlers; Prelude has
--   the shared types, maps, integers and lemmas.
-- The other modules beside or below these hold the proofs, and each Tests module holds the examples.
--
-- How the code is modelled:
-- * A function of Go is a function by clauses, with the state it changes as an argument and a result.
--   Option is used where the code may panic or block for ever: none stands for either, and the
--   comments say which. An error of Go is a value of Reply.
-- * A method that holds a lock from its first line to its last is one step. handleShardMapUpdate, which
--   lets go of the lock in the middle, is begin_update, fetch_shard_content and finish_update.
-- * A Go map is an association list whose order stands for the order of one iteration; IsDistinct says
--   that it holds a key once. The theorems hold for every order.
-- * int and int64 are integers without a bound where the code only counts or compares with them, as
--   with shard numbers, limits and TTLs; int32(x) and int64(x) are written out with their wrap-around,
--   and so are the hashes, the atomic counters of the recommender and the dot product, which are 64-bit
--   numbers.
--   Configured sizes are taken to be not negative.
-- * A time is a number of nanoseconds, seconds or milliseconds of one clock, as in the code; the
--   readings are arguments.
-- * Loops are recursions on the list they walk through. The loops over batches have fuel: one more than
--   the number of ids, which VideoRec/Batches/Complete proves to be enough for batches of at least one
--   id. A batch size of zero or less, with which the loop may never end, is outside the theorems.
--   wait, one and checkOneLeader of the Raft harness walk through the looks at the servers that the
--   clock allows.
-- * Goroutines that run side by side are sequences of steps: LoadGen has a step relation on the calls
--   and their counters, Stress lists the ends of requests in the order of the checker's lock, and a
--   request of LabRpc reads the network at three kinds of moments, between which it may change in any
--   way. Where the code replaces an object so that an old holder cannot reach it, as the harness does
--   with persisters and servers, objects are addresses in a store.
--
-- Parameters, since their code is not in the repository: the network and gRPC (which calls fail, what a
-- call returns, dialling, closing a nil connection), the random numbers, the clock, fsnotify with
-- os.ReadFile and encoding/json, sort.Slice, encoding/gob and reflect, the limiters of
-- golang.org/x/time/rate, and bcrypt, of which lab1/det_bcrypt is an altered copy. The functions of
-- lab3/raft/raft.go that my_util.go calls are the record Helpers of Raft, about which nothing
-- is assumed, since raft.go is in the repository only as an archive without its source.
--
-- Not modelled: generated protobuf code, command lines, logging, tests; the names and titles that
-- gofakeit makes up; lab0's stubs; the elections of lab3's raft, whose main file is missing, and the loop
-- of sendAppendEntries; labgob, a wrapper of encoding/gob; the set-up and the statistics of the Raft
-- harness; the copies of lab1 that were handed in. A notification of Update that blocks because its
-- listener stopped receiving is not modelled either.
pub mod Prelude
pub mod Rpc
pub mod Rotation
pub mod Kv
pub mod Checker
pub mod Stress
pub mod Backend
pub mod VideoRec
pub mod LoadGen
pub mod LabRpc
pub mod Raft
pub mod Harness
pub mod Persister
