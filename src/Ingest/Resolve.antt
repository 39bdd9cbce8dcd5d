-- ===== src/Ingest/Resolve.antt =====
-- ingest/path.go: the walk of a path's segments, which fans out at every repeated element.
use kurn.Prelude.{◌≡◌, refl, sym, List, [], ◌∷◌, ◌++◌, if◌then◌else◌}
use kurn.Prelude.Bytes.{Bytes}
use kurn.Payload.Scalar.{is_empty}
use kurn.Ingest.Node.{Node, kids}

abbrev pub concat_map {ℓ κ} : {A : Type ℓ} {B : Type κ} → (A → List B) → List A → List B
concat_map f [] = []
concat_map f (x ∷ xs) = f x ++ concat_map f xs

-- The loop of `resolve`; it returns nil as soon as a segment reaches nothing.
unfoldable pub resolve_loop : List Node → List Bytes → List Node
resolve_loop ctx [] = ctx
resolve_loop ctx (seg ∷ segs) =
    let next = concat_map (kids seg) ctx in
    let rest = resolve_loop next segs in if is_empty next then [] else rest

unfoldable pub resolve : Node → List Bytes → List Node
unfolding resolve_loop
resolve root segs = resolve_loop (root ∷ []) segs

resolve_loop-nil : (segs : List Bytes) → resolve_loop [] segs ≡ []
unfolding resolve_loop
resolve_loop-nil [] = refl
resolve_loop-nil (seg ∷ segs) = refl

pub early_exit :
    (next : List Node) (segs : List Bytes)
    → (if is_empty next then [] else resolve_loop next segs) ≡ resolve_loop next segs
early_exit [] segs = sym (resolve_loop-nil segs)
early_exit (n ∷ next) segs = refl
