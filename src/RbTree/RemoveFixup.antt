-- ===== src/RbTree/RemoveFixup.antt =====
-- `remove_fixup` of src/rbtree.rs returns, with a red-black tree in the same order.
use rtsched.Base.{
  ℕ, suc, zero, ◌≤◌, ◌<◌, Ptr, Bool, true, false, not, ◌&&◌, Option, some, List, [], ◌∷◌, ◌≡◌, inl,
  inr, ◌∙◌, ap, ap₂, sym, refl, subst, arith, length, same_ptr,
}
use rtsched.Kernel.{Result, done, Returns, Returns->>=, Returns-imp, ◌>>=◌}
use rtsched.RbTree.{
  RbNode, RbTree, Color, black, Side, left_side, right_side, is_red, set_color_of, deref,
}
use rtsched.RbTree.Remove.{remove_round, remove_fixup, side_of_link}
use rtsched.RbTree.Shape.{
  Shape, leaf, node, Step, step, root_of, top, plug, in_order, Along, At, count, count_along,
  count-root_of, hit_self,
}
use rtsched.RbTree.Balance.{shade, RedBlack, Fits, color_of-root_of, Linked}
use rtsched.RbTree.InsertLoop.{len-set_color_of}
use rtsched.RbTree.RemoveLoop.{round_lem, far-RedBlack}
use rtsched.RbTree.RemoveRound.{Ends, Outcome, goes_on, Settled-Ends, same_ptr_refl}

same_ptr-apart : (s : Shape) (q : Ptr) → count q s ≡ 0 → same_ptr (root_of s) (some q) ≡ false
unfolding count
same_ptr-apart leaf q z = refl
same_ptr-apart (node c l p r) q z = ground arith

-- A way that is not empty starts at the root.
root-Along :
    (h : Ptr → RbNode) (root : Option Ptr) (ctx : List Step) (d : Side) (c : Color) (p : Ptr)
    (w : Shape) (x : Option Ptr)
    → Along h root (step d c p w ∷ ctx) x
    → (q : Ptr) × (root ≡ some q) × (1 ≤ count_along q (step d c p w ∷ ctx))
unfolding Along count_along
root-Along h root [] d c p w x v = (p, v.2, omega (arith, hit_self p))
root-Along h root (step d' c' p' w' ∷ ctx) d c p w x v =
    let (q, e, n) = root-Along h root ctx d' c' p' w' (some p) v.2 in (q, e, omega (arith, n))

goes_on_lem :
    (t : RbTree) (d : Side) (c : Color) (p : Ptr) (w : Shape) (ctx : List Step) (s : Shape)
    → shade s ≡ black
    → At t (step d c p w ∷ ctx) s
    → goes_on t (root_of s) ≡ true
goes_on_lem t d c p w ctx s i v =
    let (q, e, n) = root-Along t.nodes t.root ctx d c p w (root_of s) v.along in
    let apart = same_ptr-apart s q (omega (arith, v.once q, n)) in
    ap₂ (λ b e. not b && not (is_red e)) (ap (same_ptr (root_of s)) e ∙ apart)
      (color_of-root_of t (some p) s v.below ∙ i)

-- The source's test of the side.
some_root : (k : ℕ) (w : Shape) → RedBlack (suc k) w → (q : Ptr) × (root_of w ≡ some q)
unfolding RedBlack
some_root k leaf b = ground arith
some_root k (node c l p r) b = (p, refl)

side_of_link_lem :
    (t : RbTree) (d : Side) (c : Color) (p : Ptr) (w : Shape) (ctx : List Step) (s : Shape)
    (q : Ptr)
    → root_of w ≡ some q
    → At t (step d c p w ∷ ctx) s
    → side_of_link t (root_of s) (some p) ≡ d
unfolding Along count_along
side_of_link_lem t left_side c p w ctx s q i v =
    ap (λ (b : Bool). elim b [ true ↦ left_side | false ↦ right_side ])
      (ap (λ (m : RbNode). same_ptr (root_of s) m.left) v.along.0 ∙ same_ptr_refl (root_of s))
side_of_link_lem t right_side c p w ctx s q i v =
    ap (λ (b : Bool). elim b [ true ↦ left_side | false ↦ right_side ])
      (ap (λ (m : RbNode). same_ptr (root_of s) m.left) v.along.0
        ∙ ap (same_ptr (root_of s)) i
        ∙ same_ptr-apart s q (omega (arith, v.once q, count-root_of w q i)))

-- One turn of the loop.
abbrev turn_on : ℕ → RbTree → Option Ptr → Option Ptr → Bool → Result RbTree
turn_on n t x parent b = elim b [
  | false ↦ done (set_color_of t x black)
  | true ↦ deref parent >>= λ p. remove_round (side_of_link t x parent) t p >>= λ (t1, x1, parent1).
      remove_fixup n t1 x1 parent1
]

remove_fixup-turn_on :
    (n : ℕ) (t : RbTree) (x parent : Option Ptr) (b : Bool)
    → goes_on t x ≡ b
    → remove_fixup (suc n) t x parent ≡ turn_on n t x parent b
unfolding remove_fixup
remove_fixup-turn_on n t x parent b i = ap (turn_on n t x parent) i

pub Ends-remove_fixup :
    (n : ℕ) (t : RbTree) (x parent : Option Ptr) (xs : List Ptr)
    → Ends t x xs
    → Returns (λ t'. Linked t' xs × (t'.len ≡ t.len)) (remove_fixup (suc n) t x parent)
Ends-remove_fixup n t x parent xs v =
    subst (Returns (λ t'. Linked t' xs × (t'.len ≡ t.len)))
      (sym (remove_fixup-turn_on n t x parent false v.0)) (v.1, len-set_color_of t x black)

pub Losing-remove_fixup :
    (n : ℕ) (t : RbTree) (x parent : Option Ptr) (xs : List Ptr) (ctx : List Step) (s : Shape)
    (k : ℕ)
    → root_of s ≡ x
    → parent ≡ top ctx
    → shade s ≡ black
    → RedBlack k s
    → Fits (suc k) black ctx
    → At t ctx s
    → in_order (plug ctx s) ≡ xs
    → length ctx < n
    → Returns (λ t'. Linked t' xs × (t'.len ≡ t.len)) (remove_fixup n t x parent)
unfolding plug Along
Losing-remove_fixup zero t x parent xs ctx s k ix ip i b f v o short =
    let no : ⊥ = omega arith in elim no [ ]
Losing-remove_fixup (suc n) t x parent xs [] s k ix ip i b f v o short =
    Ends-remove_fixup n t x parent xs (
      Settled-Ends t x xs (sym ix ∙ sym v.along)
        (record { ctx = []; focus = s; height = k; at = v; balanced = b; order = o }))
Losing-remove_fixup (suc zero) t x parent xs (step d c p w ∷ ctx) s k ix ip i b f v o short =
    let no : ⊥ = omega arith in elim no [ ]
Losing-remove_fixup (suc (suc n)) t x parent xs (step d c p w ∷ ctx) s k ix ip i b f v o short =
    let (q, e) = some_root k w (far-RedBlack (suc k) d c p w ctx f) in
    let P : Result RbTree → Type 0 = Returns (λ t'. Linked t' xs × (t'.len ≡ t.len)) in
    let next : (r : RbTree × Option Ptr × Option Ptr)
        → Outcome xs (suc (length ctx)) r × (r.0.len ≡ t.len)
        → P (remove_fixup (suc n) r.0 r.1 r.2) =
      λ (t1, x1, parent1) (out, len).
        Returns-imp (λ t2 (l2, len2). (l2, len2 ∙ len)) (remove_fixup (suc n) t1 x1 parent1)
          (elim out [
            | inl u ↦ Ends-remove_fixup n t1 x1 parent1 xs u
            | inr u ↦
                Losing-remove_fixup (suc n) t1 x1 parent1 xs u.ctx u.focus u.height u.at_x
                  u.at_parent u.focus_black u.balanced u.fits u.at u.order (omega (arith, u.short))
          ]) in
    subst P
      (sym (
        ap (λ y. remove_fixup (suc (suc n)) t y parent) (sym ix)
        ∙ ap (remove_fixup (suc (suc n)) t (root_of s)) ip
        ∙ remove_fixup-turn_on (suc n) t (root_of s) (some p) true (goes_on_lem t d c p w ctx s i v)
        ∙ ap (λ y. remove_round y t p >>= λ (t1, x1, parent1). remove_fixup (suc n) t1 x1 parent1)
            (side_of_link_lem t d c p w ctx s q e v)))
      (Returns->>= (λ r. Outcome xs (suc (length ctx)) r × (r.0.len ≡ t.len))
        (λ t'. Linked t' xs × (t'.len ≡ t.len)) (remove_round d t p)
        (λ (t1, x1, parent1). remove_fixup (suc n) t1 x1 parent1)
        (round_lem d t c p w s k xs ctx b i f o v) next)
