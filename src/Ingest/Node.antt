-- ===== src/Ingest/Node.antt =====
-- ingest/path.go: the format-neutral records that paths walk, and one step of a path.
use kurn.Prelude.{Bool, Option, none, some, List, [], ◌∷◌, ◌++◌, if◌then◌else◌}
use kurn.Prelude.Bytes.{Bytes, bytes_eq}
use kurn.Prelude.Dict.{Dict, lookup}

-- A decoded XML element, a JSON value, or a CSV row.
mutual
  pub data Node : Type 0 where
    element : Children → Bytes → Node
    object : Members → Node
    row : Dict Bytes → Node
    array : Nodes → Node
    string number : Bytes → Node
    boolean : Bool → Node
    null : Node

  pub data Nodes : Type 0 where
    end_nodes : Nodes
    node_then : Node → Nodes → Nodes

  -- `map[string][]*xnode`
  pub data Children : Type 0 where
    end_children : Children
    child_then : Bytes → Nodes → Children → Children

  -- `map[string]any`
  pub data Members : Type 0 where
    end_members : Members
    member_then : Bytes → Node → Members → Members

unfoldable pub listed : Nodes → List Node
listed end_nodes = []
listed (node_then n ns) = n ∷ listed ns

unfoldable pub children_of : Bytes → Children → List Node
children_of seg end_children = []
children_of seg (child_then k ns rest) =
    let later = children_of seg rest in if bytes_eq k seg then listed ns else later

-- What a member of an object contributes: the elements of an array, or itself.
abbrev pub spread : Node → List Node
spread (array ns) = listed ns
spread n = n ∷ []

unfoldable pub members_of : Bytes → Members → List Node
members_of seg end_members = []
members_of seg (member_then k n rest) =
    let later = members_of seg rest in if bytes_eq k seg then spread n else later

abbrev pub cell : Option Bytes → List Node
cell none = []
cell (some c) = string c ∷ []

-- `kids`
unfoldable mutual
  pub kids : Bytes → Node → List Node
  kids seg (element children text) = children_of seg children
  kids seg (object members) = members_of seg members
  kids seg (row cells) = cell (lookup seg cells)
  kids seg (array ns) = kids_all seg ns
  kids seg (string s) = []
  kids seg (number s) = []
  kids seg (boolean b) = []
  kids seg null = []

  pub kids_all : Bytes → Nodes → List Node
  kids_all seg end_nodes = []
  kids_all seg (node_then n ns) = kids seg n ++ kids_all seg ns
