-- ===== src/Ingest/Reached.antt =====
-- ingest/path.go: which nodes a path reaches in a record, said without the lists of the walk.
use kurn.Prelude.{◌↔◌, refl, sym, subst, List, [], ◌∷◌, inl, inr}
use kurn.Prelude.Bytes.{Bytes}
use kurn.Ingest.Node.{Node, kids}
use kurn.Ingest.Resolve.{concat_map, resolve_loop, resolve, early_exit}
use kurn.Ingest.Leads.{
  Leads, Among, Among-left, Among-right, Among-split, Among-kids, Leads-of_kids,
}

-- The segments of a path lead from a node to another one.
pub data Reached (n : Node) : List Bytes → Node → Type 0 where
  at_end : Reached n [] n
  through :
      {seg : Bytes} {segs : List Bytes} {m root : Node}
      → Leads seg m root
      → Reached n segs m
      → Reached n (seg ∷ segs) root

Among-concat_map :
    (seg : Bytes) (n m : Node) (ctx : List Node)
    → Among m ctx
    → Among n (kids seg m)
    → Among n (concat_map (kids seg) ctx)
Among-concat_map seg n m [] h k = absurd h
Among-concat_map seg n m (x ∷ ctx) (inl e) k =
    Among-left n (kids seg x) (concat_map (kids seg) ctx)
      (subst (λ y. Among n (kids seg y)) (sym e) k)
Among-concat_map seg n m (x ∷ ctx) (inr h) k =
    Among-right n (kids seg x) (concat_map (kids seg) ctx) (Among-concat_map seg n m ctx h k)

step_of_concat_map :
    (seg : Bytes) (n : Node) (ctx : List Node)
    → Among n (concat_map (kids seg) ctx)
    → (m : Node) × Among m ctx × Leads seg n m
step_of_concat_map seg n [] h = absurd h
step_of_concat_map seg n (x ∷ ctx) h =
    elim (Among-split n (kids seg x) (concat_map (kids seg) ctx) h) [
      | inl l ↦ (x, inl refl, Leads-of_kids seg n x l)
      | inr r ↦ let (m, a, l) = step_of_concat_map seg n ctx r in (m, inr a, l)
    ]

Among-resolve_loop :
    (n m : Node) (ctx : List Node) (segs : List Bytes)
    → Among m ctx
    → Reached n segs m
    → Among n (resolve_loop ctx segs)
unfolding resolve_loop
Among-resolve_loop n _ ctx [] h at_end = h
Among-resolve_loop n m ctx (seg ∷ segs) h (through {m = x} l r) =
    let next = Among-concat_map seg x m ctx h (Among-kids seg x m l) in
    rw (early_exit (concat_map (kids seg) ctx) segs)
      (Among-resolve_loop n x (concat_map (kids seg) ctx) segs next r)

Reached-of_resolve_loop :
    (n : Node) (ctx : List Node) (segs : List Bytes)
    → Among n (resolve_loop ctx segs)
    → (m : Node) × Among m ctx × Reached n segs m
unfolding resolve_loop
Reached-of_resolve_loop n ctx [] h = (n, h, at_end)
Reached-of_resolve_loop n ctx (seg ∷ segs) h =
    let next = concat_map (kids seg) ctx in
    let (x, a, r) =
      Reached-of_resolve_loop n next segs (subst (Among n) (early_exit next segs) h) in
    let (m, b, l) = step_of_concat_map seg x ctx a in (m, b, through l r)

-- A node is among those that resolving a path from a root gives exactly if the segments lead to it:
-- by the children of an element, a member of an object or each element of its array, the cell of a
-- row, and each element of an array on the way.
pub resolve-Reached :
    (root n : Node) (segs : List Bytes) → Among n (resolve root segs) ↔ Reached n segs root
unfolding resolve
resolve-Reached root n segs = (
  λ h.
      let (m, a, r) = Reached-of_resolve_loop n (root ∷ []) segs h in
      elim a [ inl e ↦ subst (Reached n segs) (sym e) r | inr k ↦ absurd k ],
  λ r. Among-resolve_loop n root (root ∷ []) segs (inl refl) r,
)
