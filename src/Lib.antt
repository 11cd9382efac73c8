-- ===== src/Lib.antt =====
-- buff, a network clipboard: named slots that hold one value each, written as a stream and read
-- while it is being written. This library models the clip vocabulary (clip/), the byte log of one
-- generation (store/internal/buffer/), the store that owns names, generations, quota and expiry
-- (store/), its disk medium with crashes and its recovery at the start, what crosses the wire
-- (wire/, and parts of api/ and client/), and the grammar of the command line (cli/), and proves what
-- makes them correct.
--
-- The parts and where they are:
--   Clip.Name     clip/name.go: `ValidName`, `ValidFilename`, byte for byte, with UTF-8 decoding
--   Clip.Meta     clip/clip.go: `Kind`, `Meta`, `Clip`, `Normalized`
--   Clip.Errors   clip/errors.go, and the sentinels of other packages that are compared with
--   Buffer        store/internal/buffer/buffer.go, backing.go, memory.go, sealed.go
--   Buffer.Follower       follower.go: `Read` as the look under the lock and the turn after it
--   Buffer.Interleaving   one writer and one follower of a log, step by step, in any order
--   Store.GenId, Store.Quota, Store.Generation      genid.go, quota.go, generation.go
--   Store.State   registry.go and the `store` struct of store.go, with its heaps
--   Store.Gate    gate.go: a transition, and one turn of `await`
--   Store.Medium  medium.go: what a call of the medium answered
--   Store.Resolve generation.go: which generation a read gets
--   Store.Reclaim, Store.Reaper, Store.Create, Store.Writer, Store.Open, Store.Manage
--                 store.go, writer.go, reaper.go: every operation of a store
--   Store.Outcomes       what one `Create`, `Write`, `Close`, `Delete`, `Stat` or `List` leaves, on every branch
--   Store.Record  store/meta.go: the durable record, read and checked
--   Store.Disk, Store.Disk.Commit     store/disk.go: the home of a generation, its files and its
--                 commits; Store.Disk.Crash and its children have what a crash leaves of it
--   Store.Scan, Store.Scan.Directory, Store.Scan.Classify, Store.Scan.ByName, Store.Scan.Boot
--                 store/recovery.go, disk.go (`NewDisk`): the scan at the start; the other children
--                 prove who survives it
--   Store.Recovery, Store.Restore     store/recovery.go: directory names, and the rebuilt store, which
--                 Store.Restored shows to serve its survivors
--   Wire, Api.Errors, Client.Errors   wire/wire.go, api/errors.go, client/errors.go: errors by name
--   Wire.Headers, Api.Request, Client.Meta   wire/wire.go, api/request.go, client/meta.go: the
--                 options of a request; Client.Sending has them sent and read back
--   Wire.Responses, Api.Framing, Client.Get   wire/wire.go, api/framing.go, client/get.go: the
--                 headers and the body of a response; Client.Receiving has the headers read back,
--                 Client.Transfer the body, however it is cut
--   Api.Upload, Api.Download     api/handlers.go: the handlers of PUT, and of GET, HEAD and DELETE;
--                 Api.Upload.Created, Copied, Ended and Outcome prove what a PUT leaves
--   Api.Listing   api/dto.go, api/handlers.go (`list`): the clips of a listing, in their order
--   Client.Requests   client/put.go, get.go, stat.go, list.go: what a call makes of its answer;
--                 Client.Listing has a listing from the store to the caller
--   Cli.Flags, Cli.Scan, Cli.Parse    cli/parse.go: the flags, the lexical pass, the grammar
--   Cli.Exit      cli/exit.go
--   Store.History any sequence of calls; Store.Invariant and its children keep the accounts,
--                 Store.Ages and Store.Spares the life of a generation; Store.Delivery the claim
--
-- How they interact: the store finds a handle by name, reserves from the quota, creates a buffer
-- on the medium, and points the handle to the generation. A writer appends to the buffer, and
-- `Close` publishes the generation as the handle's current value. A read resolves the handle to a
-- generation and opens the buffer, as a follower of a live log or as a section of a finished one.
-- The reaper retires what is past its deadline and gives its bytes back to the quota. On disk,
-- `Close` renames a record into place, and a claim or a removal renames it aside; at the next start
-- the scan keeps the newest whole generation of each name and the store is rebuilt from them.
--
-- How state corresponds. A pointer is a number: handles and generations are cells of two heaps,
-- functions on ℕ that an operation updates at one place, and a nil pointer is `none`. `home` says
-- that the medium holds a generation's bytes. An instant is a number of nanoseconds, and the zero
-- time is `none`. An int64 counter, a TTL or an offset is its 64-bit pattern, with the wrap of its
-- addition written out (add64, sub64, slt64); the size of one log is a plain number. A channel
-- that is closed and replaced is its number plus one. A Go map is a list of pairs, in one order of
-- its iteration. An error is a value, `%w` is `wrap`, and `errors.Is` is `is`.
--
-- Locks and interleaving. Each critical section of a gate is one atomic step of the source and one
-- function here. `Open` is `open_start`, any number of `open_turn`, each one turn of `await`, and
-- `open_cancel` when its context ends while it is parked; a wait that has outlasted its deadline
-- is the flag `elapsed`. `Create`, `Write`, `Close`, `Abort`, `Delete` and a reap are composed of
-- their sections in the order of the source, and no other call comes between them. The PUT handler
-- composes them in turn, with no other request between two chunks.
--
-- The disk. Each home of a generation is modelled by itself: its entries are names of inodes, and
-- beside the state that is seen it has the states that a crash can bring back, which a sync of the
-- directory removes; a file that was not flushed holds anything after a crash. At the start the two
-- directories are lists of entries. Each call of the system may fail. `Medium` is not yet connected
-- with this model: the theorems on the store take any answers of a medium.
--
-- What is a parameter: the clock and the random source (arguments), the medium and the backing
-- (records of the answers of their calls, which may be any faults), the context, and the codecs of
-- net/url and time (Wire.Headers.Codec and Wire.Responses.Clock, with what they document in IsCodec and
-- IsClock), of encoding/json (Store.Record.Json, IsJson), the CRC32C, and HTTP between the server and
-- the client, which delivers any prefix (Client.Transfer.IsDelivered). The bytes that a
-- backing stores on a short append are the prefix whose length it reports. Sizes of logs are
-- assumed below 2 ^ 63 where a theorem says so.
--
-- Recursion is structural, on lists, on a number of digits or on what is left of a name. One loop
-- has fuel, the search of `quarantine` for a free name: as many tries as there are entries, which are
-- proved to be enough. A number is written in decimal with as much fuel as the number itself.
--
-- Not modelled: the JSON and the health document of api/, its deadlines and its panic boundary;
-- the round trips of client/ (net/http); the reference count of a file's read descriptor
-- (store/internal/buffer/disk.go); archives (archive/); the command line's sources and sinks (cli/);
-- units/, whose `ParseDuration` is a parameter of the grammar; the server's configuration
-- (cmd/buff/); and the goroutines of followers' close.
mod Common
pub mod Clip
pub mod Buffer
pub mod Store
pub mod Wire
pub mod Api
pub mod Client
pub mod Cli
mod Tests
