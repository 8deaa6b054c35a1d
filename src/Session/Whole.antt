-- ===== src/Session/Whole.antt =====
-- insert (src/map.c:117) as a whole: the tree with its index and files, the vbranches of the new
-- branch, and the messages to the views.
use treedb.Index.{Index}
use treedb.Store.{Store}
use treedb.Map as Map
