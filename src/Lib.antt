-- ===== src/Lib.antt =====
-- treedb: a database of trees that several clients edit at once. A map is one tree; each client
-- sees it through a view, a second tree that overlays a part of the map. A map keeps its branches
-- in memory, an index from the ids to them, the file `bhead` with one record for each branch, and
-- the table `branch` of SQLite with the texts.
--
-- Parts and files (paths of the program are from the repository's root):
--   Branch.antt, Branch/   src/branch.c, branch.h: `branch_t` is the record Branch with its block
--                          `data_t`, and each function has its C name. Chain, Forest and Weight say
--                          what a well-formed tree is; Arrays, Add, Detach and Full are about the
--                          loops over child arrays and about branch_add and branch_detach.
--   Codec/Hex.antt         src/helpers.c: the hexadecimal ids.
--   Codec/Utf8.antt        src/helpers.c: utf8len, utf8index and utf8slice.
--   Io.antt, Io/           src/io.c: what is saved. Heads is about the records of a list of
--                          branches, Writes about which records each operation saves.
--   Index.antt             the calls of the red-black trees of src/lib/rb.c, as a record of
--                          operations and laws that every user takes as an instance argument.
--   Store.antt, Store/     src/map.c: what insert, move and delete do to the tree, the index and the
--                          files together; Invariant says what a well-formed map is.
--   Map.antt, Map/         src/map.c: insert and move with their checks of the ids, less what they do
--                          for the views.
--   View.antt, View/       src/vbranch.c, the lists of vbranches in src/branch.c, and expand of
--                          src/view.c. Frame says what they leave alone; Mirror, Expand, Childs,
--                          Lists and Stored are about the operations.
--   Walk.antt, Walk/       the rest of src/view.c on vbranches: view_get_vbranch, view_expand,
--                          view_expand_to and view_expand_tox, the clone, and view_destroy_vbranch.
--                          Find is about what is found; Keeps, Grow, Reach and Show are about
--                          view_expand_to; Hang,
--                          Rows, Hung and Opened are about where it puts the new vbranches.
--   Message.antt           src/map.c: vbranch_to_json and the messages to the clients.
--   Session.antt, Session/ src/map.c: the map with its views and the queue of messages. Insert, Move,
--                          Delete, Update, Show, Init and Proc are the requests, up to map_proc and
--                          map_event; Bare, BareInsert, BareDelete, Told, Visible and Paths
--                          are about them. Adds, Spread, Rounds, Climb, Counting, Viewed,
--                          Loops and Whole are about insert with all the views of a map, and
--                          Refused about messages that no handler takes.
--   Search.antt, Search/   src/search.c: which branches a search gives, over the rows of SQLite.
--   Json.antt, Json/       src/helpers.c: the json_get_ functions, over a record of what Jansson says
--                          of a value. Names has the texts that the code looks for.
--   Load.antt, Load/       src/io.c: io_load_map, branch_load and io_resave_map; branch_calculate of
--                          src/branch.c; and the new roots of src/map.c. Fresh is about these.
--                          Marks, Made, Placed, Rounds, Loop and Back are about a map that is saved
--                          and loaded again; Pruned, Tally, Walked and Calculate about
--                          branch_calculate; Kept, Counts, Image, Found and Restored about both
--                          together, which is what map_load does.
--   Channel.antt, Channel/ src/channel.c and the table of maps of src/map.c.
--   Detect.antt, Detect/   src/map.c: the detectors of inconsistent views, and what they look for.
--   Prelude.antt, Prelude/ lists, options, tests and the signed numbers that the parts share.
--   Tests.antt, Tests/     a concrete map, and the theorems at concrete inputs.
--
-- How they interact: insert allocates a branch (allocate), then links it, puts it in the index and
-- saves it (plant). move detaches and adds a branch and saves what moved (relocate). delete
-- detaches a branch, takes it out of the index and clears its record (prune). A view is opened by
-- expand, which makes vbranches over the childs of a branch; the tree has their addresses in the
-- list of each branch. A message of Redis goes to the queue of its map (on_message), the thread of
-- the map takes it out, reads its fields and runs the request (map_event, map_proc), and the answers
-- go from the queue of the map to Redis (map_each). Each request is in two models: Map.antt has what
-- insert and move do to the tree alone, and Session the whole handlers, with the vbranches and the
-- messages, which call the same allocate, plant, relocate and prune.
--
-- Conventions: an address is a number, a nullable pointer an Option, and the heap a total function.
-- The outcome `none` is a run without a result: a read through NULL or outside an array, a write
-- outside an array, or a walk that goes on for ever. Machine integers keep their wrap-around: 16
-- bits for child_n and for the counters of the copying loops, 32 bits for total_branch_n, branch_n
-- and file offsets, 64 bits for ids.
--
-- Bounds: the walk from a branch to the root takes fuel. In Store.antt it is the number of
-- addresses plus 2, which is enough since the ancestors of a branch are different addresses. A
-- walk down a view has the number of its vbranches plus 1, so it ends in `none` on a view with a
-- cycle. The copying loop of branch_add has fuel for one round more than it needs. A file keeps
-- different records apart up to 214748364 of them, where the 32-bit offset wraps.
--
-- Not modelled: the copies of libavl and libhl under src/lib; SQLite, Jansson, hiredis and libevent,
-- whose answers are arguments; failures of malloc and of the file system; freed memory; the threads,
-- so that one call-back runs after the other; the stamps time_updated of the views, which only code
-- that is commented out compares; the import of FreeMind files, the copying of files, and the
-- functions that only print.
pub mod Branch
pub mod Channel
pub mod Codec
pub mod Detect
pub mod Index
pub mod Io
pub mod Json
pub mod Load
pub mod Map
pub mod Message
pub mod Prelude
pub mod Search
pub mod Session
pub mod Store
pub mod Tests
pub mod View
pub mod Walk
