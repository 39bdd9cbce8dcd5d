-- ===== src/Ingest/Leads.antt =====
-- ingest/path.go: where one segment of a path leads, said without the lists of `kids`.
use kurn.Prelude.{
  ◌≡◌, refl, sym, subst, Bool, true, false, some, List, [], ◌∷◌, ◌++◌, ◌⊎◌, inl, inr, Bool-cases,
  Option-cases,
}
use kurn.Prelude.Bytes.{Bytes, bytes_eq}
use kurn.Prelude.Dict.{Dict, lookup}
use kurn.Ingest.Node.{
  Node, element, object, row, array, string, number, boolean, null, Nodes, end_nodes, node_then,
  Children, end_children, child_then, Members, end_members, member_then, listed, children_of,
  spread, members_of, cell, kids, kids_all,
}

-- The node is one of the nodes.
pub data In (n : Node) : Nodes → Type 0 where
  first : {ns : Nodes} → In n (node_then n ns)
  later : {m : Node} {ns : Nodes} → In n ns → In n (node_then m ns)

-- The children of an element under a name, of which a map has one group.
pub data Group (seg : Bytes) (ns : Nodes) : Children → Type 0 where
  this_group :
      {k : Bytes} {cs : Children} → bytes_eq k seg ≡ true → Group seg ns (child_then k ns cs)
  other_group :
      {k : Bytes} {ms : Nodes} {cs : Children}
      → bytes_eq k seg ≡ false
      → Group seg ns cs
      → Group seg ns (child_then k ms cs)

pub data Field (seg : Bytes) (v : Node) : Members → Type 0 where
  this_field : {k : Bytes} {ms : Members} → bytes_eq k seg ≡ true → Field seg v (member_then k v ms)
  other_field :
      {k : Bytes} {w : Node} {ms : Members}
      → bytes_eq k seg ≡ false
      → Field seg v ms
      → Field seg v (member_then k w ms)

abbrev is_array : Node → Bool
is_array (array ns) = true
is_array n = false

-- A member stands for the elements of its array, or for itself.
pub data Stands (n : Node) : Node → Type 0 where
  for_element : {ns : Nodes} → In n ns → Stands n (array ns)
  for_itself : is_array n ≡ false → Stands n n

-- One segment of a path leads from a node to another one.
pub data Leads (seg : Bytes) (n : Node) : Node → Type 0 where
  by_child :
      {cs : Children} {text : Bytes} {ns : Nodes}
      → Group seg ns cs
      → In n ns
      → Leads seg n (element cs text)
  by_member : {ms : Members} {v : Node} → Field seg v ms → Stands n v → Leads seg n (object ms)
  by_cell :
      {cells : Dict Bytes} {c : Bytes}
      → lookup seg cells ≡ some c
      → string c ≡ n
      → Leads seg n (row cells)
  by_element : {ns : Nodes} {m : Node} → In m ns → Leads seg n m → Leads seg n (array ns)

abbrev pub Among : Node → List Node → Type 0
Among n [] = ⊥
Among n (m ∷ ns) = (m ≡ n) ⊎ Among n ns

pub Among-left : (n : Node) (xs ys : List Node) → Among n xs → Among n (xs ++ ys)
Among-left n [] ys h = absurd h
Among-left n (x ∷ xs) ys (inl e) = inl e
Among-left n (x ∷ xs) ys (inr h) = inr (Among-left n xs ys h)

pub Among-right : (n : Node) (xs ys : List Node) → Among n ys → Among n (xs ++ ys)
Among-right n [] ys h = h
Among-right n (x ∷ xs) ys h = inr (Among-right n xs ys h)

pub Among-split : (n : Node) (xs ys : List Node) → Among n (xs ++ ys) → (Among n xs) ⊎ (Among n ys)
Among-split n [] ys h = inr h
Among-split n (x ∷ xs) ys (inl e) = inl (inl e)
Among-split n (x ∷ xs) ys (inr h) = elim (Among-split n xs ys h) [
  | inl l ↦ inl (inr l)
  | inr r ↦ inr r
]

Among-listed : (n : Node) (ns : Nodes) → In n ns → Among n (listed ns)
unfolding listed
Among-listed n end_nodes h = elim h [ ]
Among-listed n (node_then _ ns) first = inl refl
Among-listed n (node_then m ns) (later h) = inr (Among-listed n ns h)

In-of_listed : (n : Node) (ns : Nodes) → Among n (listed ns) → In n ns
unfolding listed
In-of_listed n end_nodes h = absurd h
In-of_listed n (node_then m ns) (inl e) = subst (λ x. In x (node_then m ns)) e first
In-of_listed n (node_then m ns) (inr h) = later (In-of_listed n ns h)

Among-children_of :
    (seg : Bytes) (n : Node) (ns : Nodes) (cs : Children)
    → Group seg ns cs
    → In n ns
    → Among n (children_of seg cs)
unfolding children_of
Among-children_of seg n ns end_children g h = elim g [ ]
Among-children_of seg n ns (child_then k _ cs) (this_group e) h = rw e (Among-listed n ns h)
Among-children_of seg n ns (child_then k ms cs) (other_group e g) h =
    rw e (Among-children_of seg n ns cs g h)

Group-of_children_of :
    (seg : Bytes) (n : Node) (cs : Children)
    → Among n (children_of seg cs)
    → (ns : Nodes) × Group seg ns cs × In n ns
unfolding children_of
Group-of_children_of seg n end_children h = absurd h
Group-of_children_of seg n (child_then k ns cs) h = elim (Bool-cases (bytes_eq k seg)) [
  | inl e ↦ (ns, this_group e, In-of_listed n ns (rw (e, children_of) at h))
  | inr e ↦
      let (ms, g, i) = Group-of_children_of seg n cs (rw (e, children_of) at h) in
      (ms, other_group e g, i)
]

spread-itself : (v : Node) → is_array v ≡ false → spread v ≡ v ∷ []
spread-itself (array ns) h = cc
spread-itself (element cs text) h = refl
spread-itself (object ms) h = refl
spread-itself (row cells) h = refl
spread-itself (string s) h = refl
spread-itself (number s) h = refl
spread-itself (boolean b) h = refl
spread-itself null h = refl

Among-spread : (n v : Node) → Stands n v → Among n (spread v)
Among-spread n (array ns) (for_element h) = Among-listed n ns h
Among-spread n v (for_itself e) = subst (Among n) (sym (spread-itself n e)) (inl refl)

alone : (n v : Node) → is_array v ≡ false → Among n (v ∷ []) → Stands n v
alone n v e (inl same) = subst (λ x. Stands x v) same (for_itself e)
alone n v e (inr h) = absurd h

Stands-of_spread : (n v : Node) → Among n (spread v) → Stands n v
Stands-of_spread n (array ns) h = for_element (In-of_listed n ns h)
Stands-of_spread n (element cs text) h = alone n (element cs text) refl h
Stands-of_spread n (object ms) h = alone n (object ms) refl h
Stands-of_spread n (row cells) h = alone n (row cells) refl h
Stands-of_spread n (string s) h = alone n (string s) refl h
Stands-of_spread n (number s) h = alone n (number s) refl h
Stands-of_spread n (boolean b) h = alone n (boolean b) refl h
Stands-of_spread n null h = alone n null refl h

Among-members_of :
    (seg : Bytes) (n v : Node) (ms : Members)
    → Field seg v ms
    → Stands n v
    → Among n (members_of seg ms)
unfolding members_of
Among-members_of seg n v end_members f h = elim f [ ]
Among-members_of seg n v (member_then k _ ms) (this_field e) h = rw e (Among-spread n v h)
Among-members_of seg n v (member_then k w ms) (other_field e g) h =
    rw e (Among-members_of seg n v ms g h)

Field-of_members_of :
    (seg : Bytes) (n : Node) (ms : Members)
    → Among n (members_of seg ms)
    → (v : Node) × Field seg v ms × Stands n v
unfolding members_of
Field-of_members_of seg n end_members h = absurd h
Field-of_members_of seg n (member_then k v ms) h = elim (Bool-cases (bytes_eq k seg)) [
  | inl e ↦ (v, this_field e, Stands-of_spread n v (rw (e, members_of) at h))
  | inr e ↦
      let (w, g, i) = Field-of_members_of seg n ms (rw (e, members_of) at h) in
      (w, other_field e g, i)
]

Among-kids_all :
    (seg : Bytes) (n m : Node) (ns : Nodes)
    → In m ns
    → Among n (kids seg m)
    → Among n (kids_all seg ns)
unfolding kids_all
Among-kids_all seg n m end_nodes i h = elim i [ ]
Among-kids_all seg n m (node_then _ ns) first h = Among-left n (kids seg m) (kids_all seg ns) h
Among-kids_all seg n m (node_then x ns) (later i) h =
    Among-right n (kids seg x) (kids_all seg ns) (Among-kids_all seg n m ns i h)

pub Among-kids : (seg : Bytes) (n a : Node) → Leads seg n a → Among n (kids seg a)
unfolding kids
Among-kids seg n (string s) l = elim l [ ]
Among-kids seg n (number s) l = elim l [ ]
Among-kids seg n (boolean b) l = elim l [ ]
Among-kids seg n null l = elim l [ ]
Among-kids seg n (element cs text) (by_child {ns} g i) = Among-children_of seg n ns cs g i
Among-kids seg n (object ms) (by_member {v} f s) = Among-members_of seg n v ms f s
Among-kids seg n (row cells) (by_cell found e) = rw found (inl e)
Among-kids seg n (array ns) (by_element {m} i l) =
    Among-kids_all seg n m ns i (Among-kids seg n m l)

Leads-of_cell :
    (seg : Bytes) (n : Node) (cells : Dict Bytes)
    → Among n (cell (lookup seg cells))
    → Leads seg n (row cells)
Leads-of_cell seg n cells h = elim (Option-cases (lookup seg cells)) [
  | inl e ↦ absurd (rw e at h)
  | inr (c, e) ↦ alone_cell c e (rw e at h)
]
  where
    alone_cell :
        (c : Bytes) → lookup seg cells ≡ some c → Among n (string c ∷ []) → Leads seg n (row cells)
    alone_cell c e (inl same) = by_cell e same
    alone_cell c e (inr k) = absurd k

mutual
  unfolding kids kids_all

  pub Leads-of_kids : (seg : Bytes) (n a : Node) → Among n (kids seg a) → Leads seg n a
  Leads-of_kids seg n (element cs text) h =
      let (ns, g, i) = Group-of_children_of seg n cs h in by_child g i
  Leads-of_kids seg n (object ms) h =
      let (v, f, s) = Field-of_members_of seg n ms h in by_member f s
  Leads-of_kids seg n (row cells) h = Leads-of_cell seg n cells h
  Leads-of_kids seg n (array ns) h = let (m, i, l) = Leads-of_kids_all seg n ns h in by_element i l
  Leads-of_kids seg n (string s) h = absurd h
  Leads-of_kids seg n (number s) h = absurd h
  Leads-of_kids seg n (boolean b) h = absurd h
  Leads-of_kids seg n null h = absurd h

  Leads-of_kids_all :
      (seg : Bytes) (n : Node) (ns : Nodes)
      → Among n (kids_all seg ns)
      → (m : Node) × In m ns × Leads seg n m
  Leads-of_kids_all seg n end_nodes h = absurd h
  Leads-of_kids_all seg n (node_then m ns) h =
      elim (Among-split n (kids seg m) (kids_all seg ns) h) [
        | inl l ↦ (m, first, Leads-of_kids seg n m l)
        | inr r ↦ let (x, i, l) = Leads-of_kids_all seg n ns r in (x, later i, l)
      ]
