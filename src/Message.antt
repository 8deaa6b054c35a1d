-- ===== src/Message.antt =====
-- The messages to the clients of a map (src/map.c): the objects that are dumped into `out_q`, with
-- ids as the hexadecimal texts that they hold, and vbranch_to_json.
use treedb.Prelude.{
  ℕ, zero, suc, Bool, Option, none, some, List, [], ◌∷◌, ◌==◌, if◌then◌else◌, ◌>>=◌,
}
use treedb.Prelude.Int.{ℤ}
use treedb.Codec.Hex.{id2hex64}
use treedb.Branch.{Text, elems}
use treedb.View.{World}

mutual
  -- The object of vbranch_to_json. A text that is NULL is left out, and so are the mark of a branch
  -- without a note and the childs of a vbranch without any.
  pub data Node : Type 0 where
    node : Text → Option Text → ℕ → ℕ → Bool → Option Text → Nodes → Node

  pub data Nodes : Type 0 where
    end : Nodes
    next : Node → Nodes → Nodes

-- The fields of each message in the order in which the code writes them.
pub data Message : Type 0 where
  map_insert : Text → Text → ℕ → Node → Message
  map_count : Text → Text → ℤ → Message
  map_move : Text → Text → Text → ℤ → Bool → Message
  map_update : Text → Text → Option Text → Option Text → Message
  map_delete : Text → Text → Message
  map_remove_mark : Text → Text → Text → Message
  map_init : Text → Text → Node → Message
  ack : Message

-- The loop over the childs, of which there are `n`.
unfoldable pub to_nodes : (ℕ → Option Node) → ℕ → List ℕ → Option Nodes
to_nodes f zero l = some end
to_nodes f (suc n) [] = none
to_nodes f (suc n) (x ∷ l) = f x >>= λ a. to_nodes f n l >>= λ r. some (next a r)

abbrev pub mark_of : ℕ → Option Text
mark_of note_id = if note_id == 0 then none else some (id2hex64 note_id)

-- `fuel` bounds the depth.
unfoldable pub vbranch_to_json : {T : Type 0} → ℕ → World T → ℕ → Option Node
unfolding to_nodes
vbranch_to_json zero w vb = none
vbranch_to_json (suc fuel) w vb = (w.vbranches vb).branch >>= λ b.
    to_nodes (λ c. vbranch_to_json fuel w c) (w.vbranches vb).child_n
      (elems (w.vbranches vb).child_list)
    >>= λ childs.
        let c = w.branches b in
        some (
          node (id2hex64 c.id) c.content.text c.content.total_branch_n c.child_n
            (w.vbranches vb).visible (mark_of c.content.note_id) childs)
