-- ===== src/Lib.antt =====
-- SimiS is a Redis-like in-memory store. A session reads the bytes of a client, parses them into commands
-- (internal/utils/resp.go, internal/command/parser.go) and routes each (internal/server/router.go): to a
-- handler of the session, to the queue of a transaction, or to the executor (internal/executor), which
-- runs one command after the other on the store. Its values are lists (internal/datastructure/deque.go),
-- streams (stream.go, over the packed list of listpack.go and the IDs of streamid.go), sorted sets
-- and strings, kept in the store of internal/store/kvstore.go.
--
-- The files, by the code that they model:
--
-- GoText       what the code uses of Go's packages strings and strconv: TrimSpace, Split, ParseUint,
--              FormatUint, Atoi and Itoa, on texts that are lists of bytes. White space is that of ASCII:
--              the other spaces that Go's TrimSpace takes off are left alone
-- Varint       the variable-length integers of Go's encoding/binary (PutUvarint, Uvarint)
-- Deque        internal/datastructure/deque.go; a deque is the list of its strings
-- StreamId     internal/datastructure/streamid.go; the clock of GenerateNextID is an argument
-- ListPack     internal/datastructure/listpack.go; bytes and offsets as in the code, and the relation
--              `Represents` between a list pack and the list of its payloads
-- Stream       internal/datastructure/stream.go; the radix tree, which is not code of the repository,
--              is the parameter `Radix` (Stream/Index): a map that is sorted by key and whose seek finds
--              the first key that is not smaller. Stream/ListIndex is a concrete one. Stream/Groups are
--              the consumer groups
-- Lru          internal/datastructure/lru.go; the key of a node stands for the pointer to it, and `Tracks`
--              relates a tracker to the list of its keys
-- KvStore      internal/store/kvstore.go, over Lru; the objects of the map are values
-- Resp         internal/utils/resp.go and internal/command/parser.go. Resp/Reader is what the parser uses of
--              Go's bufio.Reader, with its buffer of 4096 bytes; a fault of Go, such as an allocation of
--              negative size, is the result `panics`. ToUpper changes the letters of ASCII alone, where Go
--              changes every letter of Unicode
-- Acl          internal/acl/user.go
-- Connection   internal/connection/connection.go; the network connection is the list of the texts that were
--              written to it, and the connections are a function of the identifier that stands for the
--              pointer. The channel of a command's answer is its number
-- PubSub       internal/pubsub/manager.go, over Connection
-- Session      internal/handler/session, and in Session/Router internal/server/router.go and HandleRequests
--              of internal/server/session.go. The executor is the parameter `Executor`: the answer that comes
--              on a command's channel and the state of the server at that time. The handlers of REPLCONF,
--              PSYNC and WAIT and the SHA-256 sum are parameters too
-- Executor     internal/executor, for any table of handlers: a command, the commands that wait for a key,
--              and transactions. What is sent on the channels is a list. The slices of waiting commands
--              share their arrays as in the code: Turn keeps the array that the loop runs over
-- Handlers     internal/handler: the commands on strings (Handlers/Strings) and lists (Handlers/Lists), over
--              KvStore and Deque. A handler gives nothing where Go panics or the eviction does not end.
--              Handlers/Table is the table of those that are modelled, for the executor
--
-- Numbers are natural numbers below a bound that the statements name; an `int` is an integer, and its
-- conversions from 64 bits wrap around. A result that Go returns as an error, or that ends in a panic,
-- is a value of `Result`, of `Outcome` or of `Option`. The loops of ListPack and Stream recurse on a count
-- that the code computes too, but for the scan of `rebuildOffsets`, which takes fuel: as much as the input
-- has bytes, which is enough for a list pack that the operations have built, and for the eviction loop,
-- where one round more than there are keys is enough under allkeys-lru. The parser of Resp takes two units
-- of fuel for each byte of its input and one more, which is enough for every input. Allocation failures,
-- and the lines that print to the standard output, are left out.
--
-- Not modelled: the network, the goroutines and the replication, the commands on streams and sorted sets,
-- the sorted sets themselves, the geo commands, and the snapshot reader. A timeout of the executor is one
-- step, `time_out`; the races of its goroutine with the executor are left out. The order of a `range` over a map is that of a list.
pub mod Prelude
pub mod GoText
pub mod Varint
pub mod Deque
pub mod StreamId
pub mod ListPack
pub mod Stream
pub mod Lru
pub mod KvStore
pub mod Resp
pub mod Acl
pub mod Connection
pub mod PubSub
pub mod Session
pub mod Executor
pub mod Handlers
