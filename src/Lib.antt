-- ===== src/Lib.antt =====
-- A verification library for myctk. It models parts of three of the repository's libraries as functions,
-- with theorems on what makes them correct:
--
-- robims, the bitmap database: the bit-sliced index (robims/robims_bsi.cpp, robims_bsi.h, its options
-- in robims.proto), the mapping of ids and the fields of a table. `BitSliceIndex` has the fields of
-- the C++ class, with `bitmaps` as `_bitmaps`: row 0 is the set of the ids that exist, row 1 + i that
-- of the ids whose local value has bit i.
--   Robims/Bitmap.antt       the interface of CRoaring's bitmaps: operations and documented laws, a
--                            parameter of the whole model; Robims/Bitmap/Flags.antt is an instance
--   Robims/Bsi/Options.antt  BitSliceIndexCreateOptions, float_to_uint32, DoInit
--   Robims/Bsi/Range.antt    DoRangeLT, DoRangeGT, DoRangeEQ, DoRangeNEQ, DoRangeBetween
--   Robims/Bsi/Index.antt    BitSliceIndex: Init, DoPut, DoGet, DoRemove, DoGetMax, DoGetMin,
--                            DoRemoveMin
--   Robims/Bsi/TopK.antt     BitSliceIndex::TopK
--   Robims/Bsi/Typed.antt    BitSliceIntIndex and BitSliceFloatIndex
--   Robims/IdMapping.antt    SimpleIDMapping (robims/robims_simple_id_mapping.cpp)
--   Robims/Field.antt        the bool, set and int fields (robims/robims_field_*.cpp); the int field
--                            calls the index, and the table's bitmap is an argument
--   Robims/Query.antt        the tree of a query and its values (robims/robims_query.cpp), over doubles
--                            and fields as parameters; Query/Stored.antt is an instance on the fields
--                            of Robims/Field.antt
--   Robims/Query/Calc.antt, Query/Evaluate.antt, Query/Init.antt
--                            QueryCalc, QueryInterpreter with Execute, and Initializer with Init
--   Robims/Table.antt        RobimsTable: GetLocalId, Remove and Select over the fields
--                            (robims/robims_table.cpp), and Put in Robims/Table/Put.antt; simdjson is
--                            an argument
--   Robims/Field/Weighted.antt
--                            RobimsWeightSetField and RobimsFloatField
--   Robims/Database.antt     tables, CreateTable and the cache of queries (robims/robims_db_impl.cpp,
--                            robims_table.cpp, robims_field.cpp)
--   Robims/Database/Select.antt
--                            RobimsDBImpl::Select
-- How a text is parsed is not modelled; Query/Stored/Condition.antt has the trees that the grammar nests
-- for conditions on int fields. Init looks up the fields that it names, as
-- addresses, Execute calls Select of what stands at them, and RobimsDBImpl::Select keeps the query in
-- a cache and gives out a page of its ids. A table's Put and Remove look up the local id of a document
-- in the id mapping and change the fields one by one. What C++ leaves undefined in the arithmetic of
-- queries is `none`.
-- The child modules (Range/Lt, Index/Stored, ...) prove what the code of their parent does. Each C++
-- loop is one function that counts as the loop does, with a step function for its body.
--
-- didagle, graphs of processors: the construction of a graph (didagle/graph.cpp, graph_vertex.cpp)
-- and its execution (didagle/graph_executor.cpp)
--   Didagle/Vertex.antt      Vertex: Depend, BuildDeps, BuildSuccessors, Build, Verify
--   Didagle/Circle.antt      FindVertexInSuccessors and TestCircle
--   Didagle/Config.antt      GraphCluster::ContainsConfigSetting
--   Didagle/Fill.antt        Vertex::FillInputOutput
--   Didagle/Graph.antt       Graph::Build
--   Didagle/Executor.antt    VertexContext and GraphContext: who is ready, who runs, with what result
-- A Vertex* is an address in a heap. Tables keyed by hash are lists of pairs, in any order.
-- Graph::Build calls the operations of Vertex, and at the end TestCircle. The
-- execution takes the links that Graph::Build makes: SetupSuccessors reads them, OnVertexDone sends a
-- result along them and executes the successors that became ready.
--
-- mraft, a raft node: the log on disk (mraft/segment_log_storage.cpp, mraft/segment_log_storage.h, and
-- the calls that the raft library makes of it, mraft/log_storage.cpp) and the snapshots
--   Mraft/LocalInt.antt          LocalInt (mraft/utils.h): integers in network order
--   Mraft/Header.antt            EntryHeader, the 24 bytes in front of an entry's data
--   Mraft/Segment.antt           Segment: one file with the table of its offsets
--   Mraft/Storage.antt           SegmentLogStorage: AppendEntry, GetEntry and what they call
--   Mraft/Storage/Truncate.antt  TruncatePrefix and TruncateSuffix
--   Mraft/Storage/Startup.antt   Init, ListSegments, LoadSegments
--   Mraft/Storage/Log.antt       mraft/log_storage.cpp
--   Mraft/Snapshot.antt          Snapshot (mraft/snapshot.cpp, mraft/snapshot.h), and GetSnapshotChunk
--                                and StoreSnapshotChunk of Raft (mraft/mraft.cpp)
-- A Segment carries the bytes of its file, and a SegmentLogStorage its segments, the entries in memory
-- and the content of log_meta. `Holds` (Mraft/Segment/Kept.antt) says that a segment's file and table
-- are those of a list of entries, `Represents` (Mraft/Storage/Entries.antt) that a storage stands for a
-- list of entries: its segments hold them one after the other, the cache is the end of that list and
-- latest_entry_ its last one. AppendEntry calls Append of the open segment, GetEntry and GetTerm those of
-- the segment that GetSegment finds, the truncations take segments out and call Truncate, Init calls
-- Load of each. A Snapshot carries its directory as a table of files by name. folly::crc32 is a
-- parameter with values below 2 ^ 32; what system calls return are arguments.
--
-- Base.antt and its children hold shared names and lemmas: lists, bits of numbers, integers, and in
-- Base/Name.antt strings as bytes, std::set and the tables keyed by strings.
--
-- Bounds. Values are 32 bits wide and 64-bit results keep their wrap-around; the int shift in DoGetMax
-- and DoGetMin bounds those theorems to bit depths below 32; the sums of TopK are those of uint32_t.
-- Floats are parameters with the comparisons that the code relies on. The search for circles recurs
-- without bound in C++, so it takes a depth, and says when the depth was reached. A depth above the
-- length of the longest walk is enough, since each call goes one link further. The loop of
-- Segment::Load takes at least 24 bytes a round, so that the file's length bounds its rounds. The loops
-- over mraft's cache need not end, so they take fuel, and say when it was used up; the theorems on the
-- log take an empty cache, for which one round is enough. Indices and terms of the log are natural
-- numbers.
--
-- Not modelled: saving and loading of robims, its grammars of queries and of tables, logging, DumpDot,
-- the parameters of processors, locks and memory orders, the rest of mraft's node, reads of mraft's
-- files that fail, and the other libraries of the repository (rdict, ecache, cmod, config, ssexpr,
-- ispine).
pub mod Base
pub mod Robims
pub mod Didagle
pub mod Mraft
