-- ===== src/Lib.antt =====
-- telegram-s3 is an S3 gateway that keeps the bytes of objects as documents of a Telegram channel and
-- their metadata in SQLite. A PUT cuts the body into chunks, sends each as a message by one bot of a
-- pool, and records the chunk map; a GET reads the map, plans a range, fetches windows of it by
-- concurrent workers, and streams them in order.
--
-- Cache models internal/cache/cache.go, the map with expiry that holds the locations of documents.
-- Storage models the types of internal/storage/storage.go. A result is `ok` or `err` with the errors
-- that the program tells apart.
-- Reader.Source models internal/reader/bot_source.go: `ChunkSize`, `Chunk` and `locate`.
-- Reader.Buffer models internal/reader/buffer.go with `Prime` and `Read` of internal/reader/reader.go,
-- Reader.Plan `New`, a worker's fetch and the drainer of that file, and Reader.Plan.Race the workers,
-- the drainer and the consumer as steps that interleave in any order, with the bounded channel
-- between the drainer and the consumer.
-- Mtproto models internal/storage/telegram/mtproto: Retry the middleware of retry.go, Api what is
-- called of gotd/td, as an interface, Laws what is relied on of it (a send that is answered without
-- an error may have left a short document or none, and only the size that the message is reported
-- with settles it), Response, Split and Upload upload.go, Pool the counters of client.go, Delete
-- delete.go, and Fetch download.go, which relies on getFile only at offsets that are multiples of the
-- limit.
-- Metadata models internal/metadata/store.go: the tables, the statements over buckets and objects
-- (with Table for what they use of SQL), Listing `ListObjectsPage`, Bound `prefixUpperBound`, and
-- Multipart the statements over multipart uploads.
-- S3api models internal/s3api: Range `parseByteRange`, Conditions the preconditions of objectmeta.go,
-- Read `getObject`, Chunked the decoder of chunked.go, Write `putObject` and `deleteOneObject`,
-- Assembly the loop of `completeMultipartUpload`, Multipart the handlers of multipart.go, Uri
-- `awsURIEncode`, Canonical and Signature SigV4 (`authorized`), Copy the handlers of copy.go, Bulk
-- deleteobjects.go and janitor.go, and Router `ServeHTTP` up to the call of a handler. Service joins
-- them: a request is routed and changes the store and the channel, a tick of the janitor sweeps
-- them, and any sequence of these is a run.
-- Base holds what the modules share: lists over native numbers, byte strings and their Go functions,
-- and the text of a time in the store.
-- Tests holds a channel in memory that keeps the laws, tests, and the theorems at concrete inputs.
--
-- State is passed explicitly. The channel is whatever the interface `Telegram` says, the pool's
-- counters stand beside it, and the store is a record of its tables, each a list of rows. A loop runs
-- on fuel where it is not structural: the halving of the window 63 times, as often as an int64 can be
-- halved; the stitching loop once for each byte of its window, since each round adds one; the rounds
-- of an upload once for each byte of the body and once more, since each round but the last takes at
-- least one; the rounds of a fetch and of the decoder likewise. `exhausted` is the error of a loop
-- that runs out of fuel, and no error of the program.
--
-- Numbers are natural: sizes and offsets come from the program's own tables and are never negative.
-- Parsed numbers are bounded as an int64 is. Times are natural numbers; those of the
-- store count nanoseconds, and a statement that compares the column of a time compares the texts that
-- are stored. MD5 sums, net/http's date
-- parser and the names of uploaded files are arguments.
--
-- Not modelled: the bodies of listings, XML and the answers to bucket configuration, the
-- configuration, logging, contexts and timeouts, connections to Telegram, failures of the disk,
-- requests that run at the same time, and the main program. Hash functions and the parsers of times
-- are arguments, and whether a request is signed is one of the router.
mod Base
pub mod Cache
pub mod Storage
pub mod Reader
pub mod Mtproto
pub mod Metadata
pub mod S3api
mod Tests
