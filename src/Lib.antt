-- ===== src/Lib.antt =====
-- Verification of mappo, a Go library of maps, sets and caches for concurrent use.
--
-- Parts of the program. concurrent.go wraps xsync.MapOf, a hash map of a third party, with entries
-- that may expire; lru.go puts beside such a map an array of nodes that are linked by indices, in the
-- order of use, with a bound on their number; sharded.go splits a map over several xsync maps by the
-- hash of the key; set.go is a set over a Go map; ordred.go keeps the keys of such a map in the order of
-- a linked list; slicer.go is an append-only slice, shared out over stripes of linked chunks; pool.go
-- keeps byte buffers in a sync.Pool; mapper.go has methods on a Go map. cache.go wraps
-- the otter cache of a third party with items that may expire, and closer.go closes their values. hash.go is
-- not modelled here.
--
-- Which file models which part:
--   Prelude     names of the library, tests on numbers, lists, equality of keys.
--   Pairs       lists of key-value pairs: lookup, removal, keys that stand once.
--   MapOf       the interface of xsync.MapOf, a parameter of all models, with the laws that its
--               documentation gives; MapOf/Assoc is an instance, on which examples are run.
--   Run         the result of a Go call: a value, a panic, or a loop that ran out of fuel.
--   Time        int64 nanoseconds with wrap-around: deadlines and their tests.
--   Visit       callbacks that run over pairs until they return false.
--   Concurrent  concurrent.go. The state is the xsync map from keys to pointers to entries, `none`
--               for a nil pointer. Each method of Concurrent is the definition of the same name
--               (SetTTL is `set_ttl`); `compute_entry`, `replace_entry` and `compare_entry` are the
--               functions that Compute, Replace and CompareAndSwap pass on to xsync. `view` is what
--               a key reads at a time. Expiry: reads and stores; Writes: the writes that depend on
--               what is there; Sweep: Range, Keys and Values; Clears: ClearIf; Reach: which sequences of
--               calls keep nil pointers out.
--   Lru         lru.go. The record `Lru` is the type LRU: head, tail and free list are `none` where
--               the code has -1, `node_pool` and `capacity` are the length and the capacity of the
--               slice, and `evictions` is the log of the calls of OnEviction. Lru has the operations
--               on nodes and Set, Get, Peek and Delete; Whole has the constructor, Clear, Keys,
--               Values, Range, Resize and PurgeExpired; Combined has GetOrSet and GetOrCompute.
--               Links, Linked, Unlink, Front, Holds, Drop, Touch, Insert and Evict treat the array: which nodes are
--               linked, in which order, and which are free. `Models l es` (Models) says that the
--               state is well formed and stands for the entries `es`, most recently used first.
--               Place finds a key's node; Methods, Stores, Missing, Walks, Resets, Clears and Purges say for each method what
--               it does to the entries; Lost is about a bound over the array's capacity; Aging: how
--               long an entry stays that is not used again; Script
--               puts the methods together.
--   Sharded     sharded.go. The record `Sharded` has the xsync maps and the mask; a key's shard is
--               chosen by `hash`, a parameter. A write replaces the shard in the list. Sharded has
--               the constructor and the methods that go to one shard, Whole those that go through
--               all. `view` is what the map holds for a key. Bits: the number of shards; Route: how
--               a key finds its shard; Writes: the methods on one key; Sweep: Range, Keys, Values
--               and Len; Sieve: ClearIf; Fresh: the constructor and Clear.
--   Set         set.go. The Go map is the list of its elements, `none` for a nil map; `ranged` is the
--               order of an iteration, an arbitrary function. Elements: lists of elements; Laws: the
--               operations by membership; Kept: elements do not repeat.
--   ContainerList  the standard library's container/list: a list of numbered elements.
--   Ordered     ordred.go. The record `Ordered` has the xsync map and the list, which both lead to
--               elements on `heap` by address; `pool` is what elemPool has, and the argument `choice`
--               says which of it Get hands out, if any. Ordered has Set, SetFront, Get, GetAt,
--               IndexOf, Delete, DeleteAt, the moves and the insertions; Whole has the constructor,
--               the walks, the ends, Swap, Reverse and Clear. `Models o es` (Holds) says that the
--               state is well formed and stands for the pairs `es`. Places, Middle and Found treat
--               one element that comes, goes or is found; Writes, Moves, Removed, Beside, Indexed,
--               Ends, Pick, Exchange, Swap, Turns (Reverse) and Cleared say what each method does to
--               the pairs, Reads what the others return; Lengths and Script put the methods
--               together; Hazards is about calls that go wrong.
--   Slicer      slicer.go. A stripe has its chunks in a list, and `tail` is an index into it; a slot
--               is `none` until its value is ready. Slicer has Append, Get and Len, Whole the
--               constructors, Range, Snapshot and Config. Filled and Append treat a stripe as the
--               list of its values, Columns puts the stripes' lists together, Rows is about the
--               place of an index. Phases splits Append where it has taken its index, and Overlap has two calls
--               that overlap there. `Spread s vs` (Layout) says that the state is well formed and
--               stands for the list `vs`; Visits is about Range and Snapshot, Trips about what comes
--               out after calls of Append.
--   SyncPool    the standard library's sync.Pool: a list, and an argument that says which of it is handed
--               out, if any.
--   BytesPool   pool.go. A buffer is the bytes of its array and the length of the slice. Kept says what
--               the pool holds, Counts what the counters tell.
--   Mapper      mapper.go. The Go map is the list of its pairs, `none` for a nil map; `ranged` is the
--               order of an iteration. OK is `ok_get`. Combine: Merge and MergeWith; Renamed: MapKeys
--               and Invert; Sorted has SortedKeys.
--   Otter       the interface of the otter cache, a parameter of Cache, with the laws that its
--               documentation gives; `evict` is what it drops on its own account. Otter/Assoc is an
--               instance.
--   Cache       cache.go. The record `Cache` has the otter cache, which leads from keys to items on
--               `heap` by address, and the flag `closed`. Cache has Load, the stores and the deletes,
--               Combined the methods that put these together or work in a call of Compute, Whole
--               Range, Keys, Stats and Close, and closer.go. `view` (View) is the item that a key has
--               at a time. Stored: the writes; Fresh and Computed: GetOrSet and GetOrCompute;
--               Entries and Steps: which entries calls leave, and what Close leaves; Shown: Range and
--               Keys.
--   Each component's Tests module runs the code and applies the theorems at concrete values.
--
-- Time. A method takes each reading of the clock as an argument, in nanoseconds since the epoch; the
-- theorems that compare deadlines with the clock ask for times below 2 ^ 63, the year 2262.
--
-- Loops. The loops that evict run on fuel, one more than the counter `size`, and the walks of lru.go
-- on one more than the length of the array: each round takes one node away, or goes on to the next of
-- the linked nodes, which are no more than the array has. The loop of Append of slicer.go runs on as
-- many rounds as its stripe has chunks: each round but the last moves the tail on by one. The loop
-- that doubles the number of stripes runs 64 rounds, after which no bit is left. The theorems on the methods give the result
-- as a value, not as `out_of_fuel`.
--
-- Zero values. Go's zero values of the key and the value type are the parameters `zero_key` and
-- `zero_value` of the definitions that use them.
--
-- Not modelled. Calls are sequential: one method runs to its end before the next, but for two calls of
-- Append of slicer.go in Overlap and, in Ordered/Hazards, a Get that is overtaken between its two steps. In lru.go, a key is
-- looked up in the xsync map before the lock is taken, and the lock is released while OnEviction runs;
-- what other goroutines do then is left out, and so are callbacks that call the map again. Range of
-- set.go is modelled for callbacks that leave the set as it is. The size
-- hint and the hash function of xsync, and the standard library's locks and atomics, have no
-- counterpart: an atomic counter is a bit pattern of its width. HitRate of
-- pool.go, a quotient of floats, is left out, and so are the JSON methods of cache.go, which hand an
-- item's fields to encoding/json by reflection, and hash.go, which hashes raw memory: the hash is a
-- parameter of the sharded map. A time of cache.go is a natural number, from the zero time on; the
-- monotonic part of a clock's reading has no counterpart.
pub mod Prelude
pub mod Pairs
pub mod MapOf
pub mod Run
pub mod Time
pub mod Concurrent
pub mod Visit
pub mod Lru
pub mod Sharded
pub mod Set
pub mod ContainerList
pub mod Ordered
pub mod Slicer
pub mod Mapper
pub mod Otter
pub mod Cache
pub mod SyncPool
pub mod BytesPool
