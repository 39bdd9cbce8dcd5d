-- ===== src/Samples/Ingest.antt =====
-- The path resolver on a concrete record.
use kurn.Prelude.{◌↔◌, ◌≡◌, refl, List, [], ◌∷◌}
use kurn.Prelude.Bytes.{Bytes, codes}
use kurn.Ingest.Node.{
  Node, object, array, string, end_nodes, node_then, end_members, member_then, kids, listed,
  members_of,
}
use kurn.Ingest.Resolve.{resolve}
use kurn.Ingest.Leads.{Among}
use kurn.Ingest.Reached.{Reached, resolve-Reached}
use kurn.Ingest.Common.{common_prefix, is_prefix, prefix_of_all, is_prefix-common_prefix}

abbrev aka : Bytes → Node
aka s = object (member_then (codes "name") (string s) end_members)

-- {"aka": [{"name": "ann"}, {"name": "anna"}]}
abbrev person : Node
person = object (
    member_then (codes "aka")
      (array (node_then (aka (codes "ann")) (node_then (aka (codes "anna")) end_nodes)))
      end_members)

resolve_run :
    resolve person (codes "aka" ∷ codes "name" ∷ [])
    ≡ string (codes "ann") ∷ string (codes "anna") ∷ []
unfolding resolve kids listed members_of
resolve_run = refl

resolve-Reached_example :
    Among (string (codes "anna")) (resolve person (codes "aka" ∷ codes "name" ∷ []))
    ↔ Reached (string (codes "anna")) (codes "aka" ∷ codes "name" ∷ []) person
resolve-Reached_example =
    resolve-Reached person (string (codes "anna")) (codes "aka" ∷ codes "name" ∷ [])

abbrev name_path : List Bytes
name_path = codes "aka" ∷ codes "name" ∷ []

abbrev kind_path : List Bytes
kind_path = codes "aka" ∷ codes "kind" ∷ []

common_run : common_prefix (name_path ∷ kind_path ∷ []) ≡ codes "aka" ∷ []
unfolding common_prefix
common_run = refl

is_prefix-common_prefix_example :
    is_prefix (codes "aka" ∷ []) (common_prefix (name_path ∷ kind_path ∷ []))
    ≡ prefix_of_all (codes "aka" ∷ []) (name_path ∷ kind_path ∷ [])
is_prefix-common_prefix_example =
    is_prefix-common_prefix name_path (kind_path ∷ []) (codes "aka" ∷ [])
