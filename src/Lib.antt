-- ===== src/Lib.antt =====
-- foundation_lib: the containers, streams and codecs of the foundation C library.
--
-- Each module models one source file of foundation/. State is a record with the fields of the C
-- struct, an operation is a function that returns the new state beside its result, and a machine
-- word keeps its wrap-around (Prelude/Words.antt). Blocks of memory are lists of numbers, with
-- memcpy written as Prelude/Slices.antt's overwrite.
--
-- Memory.antt: memory_reallocate of foundation/memory.c, as an interface: what callers rely on.
-- RingBuffer.antt: foundation/ringbuffer.c up to ringbuffer_total_written.
-- RingBuffer/Contents.antt is the invariant and the queue that the fields stand for, Read.antt and
-- Write.antt the two operations, Queue.antt sequences of calls.
-- BufferStream.antt: foundation/bufferstream.c. View.antt is the invariant, the text and reads;
-- Write.antt, Truncate.antt and Seek.antt the operations that move or change it.
-- HashTable.antt: foundation/hashtable.c, run by one thread. Probe.antt and Search.antt say where
-- a search ends, Loops.antt that the loops end there, Entries.antt is the map that the entries
-- stand for, Map.antt the invariant, Operations.antt the operations, Widths.antt the 32 bit and
-- the 64 bit table.
-- Base64.antt: foundation/base64.c. Tables.antt are its two tables, Encode.antt and Decode.antt what the
-- two functions return, RoundTrip.antt the one after the other.
-- BitBuffer.antt: foundation/bitbuffer.c, on a block of memory or on a stream (the interface
-- WordStream). Bits.antt and Words.antt are the bits of words, Writer.antt writes of up to 32 bits,
-- Fields.antt of up to 64 and alignment, Reader.antt and Reads.antt reads, RoundTrip.antt reads of
-- what was written. The theorems are about blocks of memory.
-- HashMap.antt: foundation/hashmap.c, and array_erase of foundation/array.h. Arrays.antt is the erasure,
-- Nodes.antt the search of a bucket, Buckets.antt the invariant and the finite map that the buckets
-- stand for, Operations.antt the operations.
-- Blowfish.antt: foundation/blowfish.c, its constants in Tables.antt. Words.antt is a block, Blocks.antt
-- the data in the four modes, Schedule.antt the key schedule.
-- Md5.antt: foundation/md5.c, the steps of md5_transform in Steps.antt. Blocks.antt and Chunks.antt say
-- what a digest holds of a message that comes in chunks. Rfc.antt is RFC 1321 written apart from the code
-- (bits, the sine, place values), Transform.antt and Reference.antt compare the code with it.
-- Sha.antt: foundation/sha.c. What sha256_t and sha512_t share is written over a record of what differs
-- (Hash); Compress.antt is the compression on words of either width, Constants.antt the tables,
-- Variants.antt the two digests. Chunks.antt is what a digest holds of a message that comes in chunks,
-- Filling.antt and Finalize.antt the last blocks. Fips.antt is FIPS 180-4 written apart from the code (bits,
-- roots of primes, place values); FipsWords.antt and FipsBlocks.antt compare a block with it, FipsMessage.antt,
-- FipsVariants.antt and FipsHash.antt a message.
-- RadixSort.antt: foundation/radixsort.c. Items are bit patterns, Values.antt those of a type. Histograms.antt
-- and Presorted.antt are the counting loops, Ready.antt and Create.antt the index tables before the
-- passes, Ranks.antt, Totals.antt, Places.antt and Offsets.antt the offset tables, Scatter.antt,
-- Distribute.antt and Pass.antt a pass over the indices, Buckets.antt what it makes of them, Orders.antt the
-- orders of the types byte by byte, Passes.antt, LastPass.antt and Sort.antt the whole.
-- Json.antt: json_parse and sjson_parse of foundation/json.c, with the calls and loops of its three
-- functions as the constructors of Call; Text.antt is the characters, strings and numbers that they read.
-- Tokens.antt says where the token arrays of two runs agree, Runs.antt, ValueRuns.antt, ObjectRuns.antt
-- and Agreement.antt that the runs do; Lexer.antt says how far a scan gets, Ends.antt, ValueEnds.antt,
-- ObjectEnds.antt and Totality.antt that the parser ends.
-- Escape.antt is json_escape and json_unescape, Escape/RoundTrip.antt the one after the other.
-- Utf8.antt: the UTF-8 of foundation/string.c. Lead.antt is the first byte of a character, Glyph.antt the
-- character, Convert.antt strings of them.
-- ObjectMap.antt: foundation/objectmap.c, run by one thread. Free.antt is the list of free slots and the
-- invariant, Reserve.antt, Release.antt and Lookup.antt the operations. Pointers are numbers, and the
-- objects a function from them.
--
-- Bounds and fuel. ringbuffer_read and ringbuffer_write call themselves; the fuel is the depth,
-- and 2 is enough. The loops of the hash table take a round for each slot at most, so their fuel
-- is the capacity. base64_decode takes a unit of fuel for a block of characters. The
-- tokenizer's fuel is three for a byte of text, as a byte costs two calls and a turn at most.
-- Every theorem about a function on fuel says that it returns.
--
-- Not modelled: assertions (FOUNDATION_ASSERT), log messages, allocation failure, and the order of
-- memory accesses of concurrent threads.
pub mod Prelude
pub mod Memory
pub mod RingBuffer
pub mod BufferStream
pub mod HashTable
pub mod Base64
pub mod BitBuffer
pub mod HashMap
pub mod Blowfish
pub mod Md5
pub mod ObjectMap
pub mod Sha
pub mod Utf8
pub mod RadixSort
pub mod Json
