-- ===== src/Lib.antt =====
-- PodCache: a cache server with a RESP protocol, an LRU cache in memory and a store on disk.
--
-- The program takes requests over TCP, parses them (src/resp_parser.c), and serves them from a
-- cache of partitions (src/pod_cache.c). A key's partition is its djb2 hash modulo their number
-- (src/hash_func_nossl.c). A partition is an LRU cache (src/lru_cache.c): a doubly linked list of
-- nodes, the most recently used first, a hash table of chains that point at the nodes, and a count
-- of the values' bytes. A put that finds no room moves the least recently used entry to the store
-- on disk (src/cas.c), at a path made of the SHA-256 of its key, and tries again; a get that finds
-- the key only on disk puts it back in memory.
--
--   * Prelude: names of the libraries, bytes and C strings, list functions, Boolean tests, signed
--     integers, and decimal numbers as printf writes and strtol reads them. strtol is modelled
--     since the parser depends on where it stops and on its range errors.
--   * Hash: hash_djb2, hash, hash_key (Djb2) and sha256_string (Sha256), computed on 32-bit words.
--   * Lru: the structures of include/lru_cache.h as records, with the list's nodes in a heap from
--     addresses to nodes (Lru.State). The functions are commands over the cache (Lru.Ops,
--     Lru.Links), under their names without the prefix lru_cache_; a command faults on a read
--     through NULL or freed memory. Lru.Spec is the list of entries that a cache stands for;
--     Lru.Invariant says when it stands for it, with Lru.Layout for the memory and Lru.Table for
--     the hash table. Lru.Get, Lru.Evict, Lru.Tail, Lru.Put, Lru.Create and Lru.Destroy are the
--     operations against it; Lru.Race is about two threads.
--   * Resp: resp_parse and resp_decode_command. The buffer is the bytes from its position on, with
--     the position. Resp.Encode writes a request, Resp.Whole and Resp.Partial read it, Resp.Waits
--     and Resp.Prefix one that stops early. Resp.Memory follows the blocks that resp_parse
--     allocates and frees, and Resp.Memory.Agrees compares the two models.
--   * Cas: the registry and the operations of src/cas.c over a file system that is a parameter
--     (Cas.Files), of which Cas.Posix lists the documented behaviour that the theorems use.
--     Cas.Stored, Cas.RoundTrip, Cas.Unflushed, Cas.Evict, Cas.Lost and Cas.Again are about a key
--     that is put and read, evicted or put again, Cas.Registry about the registry's array,
--     Cas.Plain, Cas.Paths, Cas.Spares, Cas.Beside and Cas.Isolated about the files of two keys,
--     and Cas.Cleanup is the end of the store.
--   * Pod: the partitions and their operations (Pod.Ops), which call those of Lru and Cas.
--     Pod.Memory and Pod.Spill say what they do, Pod.Invariant what a valid cache is; Pod.Each is
--     about any invariant of the partitions and the files that the single steps keep: Pod.Create
--     and Pod.Reach use it for caches that stay valid, Pod.Survives and Pod.Lasting for a value
--     while other keys are used. Pod.Promote, Pod.Return, Pod.Lost and Pod.Stale are about keys on
--     disk, and Pod.Destroy is the end.
--   * Server: the command buffer and the replies of src/server_tcp.c (Server), its command handlers
--     (Server.Handlers), and what it does with a received chunk (Server.Loop) and with all chunks
--     of a connection (Server.Session), on top of Resp and Pod. A handler gives the bytes sent and
--     whether the connection goes on. Server.Pipeline is about many requests in one buffer,
--     Server.Chunks about one in two chunks, Server.RoundTrip and Server.Incr about SET, GET and
--     INCR one behind the other, Server.Names about the names of commands, Server.Replies about
--     what a client reads, Server.Start about the configuration. Server.Life is the process: its
--     start, the accept loop, signals and the end as steps of a state that keeps the open
--     descriptors, the ones that handler threads own, and whether one was closed that was not open.
--   * Tests: runs of the theorems at concrete inputs, with a file system in memory.
--
-- What the environment decides is an argument: whether an allocation succeeds, the address of a new
-- node, and the time. A mutex is a flag; one thread runs over a cache. size_t, uint32_t and the
-- byte counters wrap around as in C. Loops are structural recursion but for six on fuel: the growth
-- of the hash table, where 13 doublings of 16 pass 65536, and the padding of SHA-256, the printing
-- of a number, the loop over the commands in a buffer and the freeing of a list, where theorems
-- show the fuel to be enough, and the descent into the directories of the store, whose depth is the
-- caller's.
--
-- Not modelled: the bytes on the sockets below recv and send, two threads on one cache but for the
-- interleaving of Lru.Race, a signal during the start, the thread that reports the cache's use,
-- src/main.c, the logger (src/clogger.c), a copy of another project that writes the log, and the
-- TOML reader (src/toml.c), a library of another project that no code here calls; in the modelled
-- parts the checks for NULL arguments where the model's types have no NULL, the log lines, and the
-- sizes of the path buffers. That fclose fails behind a whole fwrite, of which src/cas.c takes no
-- notice, is an outcome of the model (unflushed); the theorems that read a stored value back
-- exclude it by the hypothesis Flushes of Cas.Posix. Of two paths Cas.Posix supposes that they name
-- different files only where they differ behind a common base without a name that begins with a
-- dot, and that no link leads from one to the other.
pub mod Prelude
pub mod Hash
pub mod Lru
pub mod Resp
pub mod Cas
pub mod Pod
pub mod Server
pub mod Tests
