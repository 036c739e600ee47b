-- ===== src/WaitQueue/Suspended/Unlink.antt =====
-- Unlinking an entity of `SuspendedWaitList`, against the sequence of its members.
use rtsched.Base.{
  Ptr, Option, none, some, List, [], ◌∷◌, ◌++◌, ◌≡◌, ◌≢◌, refl, sym, ap, ◌∙◌, subst, ◌∈◌, ◌∉◌, ◌==◌,
  IsDistinct, arith, update, update_ne, Bool-cases, inl, inr,
}
use rtsched.Tree
use rtsched.WaitQueue.Suspended.{
  SuspendedLinks, SuspendedWaitList, null_links, join_next, join_prev, remove,
}
use rtsched.WaitQueue.Suspended.Chain.{
  lead, trail, Chain, Chain-frame, Chain-set_next, Chain-set_prev, Chain-append, Chain-split,
  mem-trail, lead-append, trail-append, trail-some,
}
use rtsched.WaitQueue.Suspended.Refines.{Lists, has-append, not-mem-append, ne_of_mem}

-- The list `l'` has `next` after the run `us`, and is as `l` elsewhere.
record NextJoined (l l' : SuspendedWaitList) (us : List Ptr) (next : Option Ptr) : Type 0 where
  head : l'.head ≡ lead us next
  tail : l'.tail ≡ l.tail
  chain : Chain l'.links none us next
  outside : (a : Ptr) → a ∉ us → l'.links a ≡ l.links a

join_next-NextJoined :
    (l : SuspendedWaitList) (us : List Ptr) (after next : Option Ptr)
    → l.head ≡ lead us after
    → IsDistinct us
    → Chain l.links none us after
    → NextJoined l (join_next l (trail none us) next) us next
join_next-NextJoined l [] after next h d c = record {
  head = refl;
  tail = refl;
  chain = tt;
  outside = λ a o. refl;
}
join_next-NextJoined l (x ∷ xs) after next h d c =
    let (p, last) = trail-some x xs in
    subst (λ o. NextJoined l (join_next l o next) (x ∷ xs) next) (sym last)
      (record {
        head = h;
        tail = refl;
        chain = Chain-set_next l.links none after next x p xs last d c;
        outside = λ a o. update_ne l.links p _ a (ne_of_mem a p (x ∷ xs) (mem-trail x p xs last) o);
      })

-- The list `l'` has `prev` before the run `vs`, and is as `l` elsewhere.
record PrevJoined (l l' : SuspendedWaitList) (prev : Option Ptr) (vs : List Ptr) : Type 0 where
  head : l'.head ≡ l.head
  tail : l'.tail ≡ trail prev vs
  chain : Chain l'.links prev vs none
  outside : (a : Ptr) → a ∉ vs → l'.links a ≡ l.links a

join_prev-PrevJoined :
    (l : SuspendedWaitList) (before prev : Option Ptr) (vs : List Ptr)
    → l.tail ≡ trail before vs
    → IsDistinct vs
    → Chain l.links before vs none
    → PrevJoined l (join_prev l prev (lead vs none)) prev vs
join_prev-PrevJoined l before prev [] h d c = record {
  head = refl;
  tail = refl;
  chain = tt;
  outside = λ a o. refl;
}
join_prev-PrevJoined l before prev (v ∷ vs) h d c = record {
  head = refl;
  tail = h;
  chain = Chain-set_prev l.links before prev none v vs d c;
  outside = λ a o. update_ne l.links v _ a (ground (arith, o));
}

-- The parts of a sequence without repetition.
IsDistinct-split :
    (us vs : List Ptr)
    → IsDistinct (us ++ vs)
    → IsDistinct us × IsDistinct vs × ((a : Ptr) → a ∈ us → a ∉ vs)
IsDistinct-split [] vs d = (tt, d, λ a m. absurd (cc))
IsDistinct-split (u ∷ us) vs d =
    let (du, dv, apart) = IsDistinct-split us vs d.1 in
    let out = not-mem-append u us vs d.0 in
    (
      (out.0, du),
      dv,
      λ a m. elim (Bool-cases (a == u)) [
        | inl i ↦ let same : a ≡ u = ground arith in rw same out.1
        | inr i ↦ apart a (ground arith)
      ],
    )

IsDistinct-append :
    (us vs : List Ptr)
    → IsDistinct us
    → IsDistinct vs
    → ((a : Ptr) → a ∈ us → a ∉ vs)
    → IsDistinct (us ++ vs)
IsDistinct-append [] vs d c apart = c
IsDistinct-append (u ∷ us) vs d c apart = (
  ground (arith, has-append u us vs, d.0, apart u),
  IsDistinct-append us vs d.1 c λ a m. apart a (ground arith),
)

not_mem_of_apart : (us vs : List Ptr) (a : Ptr) → (a ∈ us → a ∉ vs) → a ∈ vs → a ∉ us
not_mem_of_apart us vs a h m = ground (arith, h, m)

ne_of_head : (a e : Ptr) (vs : List Ptr) → a ∉ (e ∷ vs) → a ≢ e
ne_of_head a e vs o = ground (arith, o)

not_mem_tail : (a e : Ptr) (vs : List Ptr) → a ∉ (e ∷ vs) → a ∉ vs
not_mem_tail a e vs o = ground (arith, o)

ne_of_not_mem : (a e : Ptr) (vs : List Ptr) → a ∈ vs → e ∉ vs → a ≢ e
ne_of_not_mem a e vs m o i = absurd (ground (arith, subst (λ b. b ∈ vs) i m, o))

-- `remove` for the neighbours that are read.
removed : SuspendedWaitList → Ptr → (prev next : Option Ptr) → SuspendedWaitList
removed l e prev next =
    let l2 = join_prev (join_next l prev next) prev next in
    record l2 { links = update l2.links e null_links }

removed-Lists :
    (l : SuspendedWaitList) (e : Ptr) (us vs : List Ptr)
    → Lists l (us ++ (e ∷ vs))
    → Lists (removed l e (trail none us) (lead vs none)) (us ++ vs)
unfolding removed
removed-Lists l e us vs h =
    let (du, dv, apart) = IsDistinct-split us (e ∷ vs) h.distinct in
    let (before, after) = Chain-split l.links none none us (e ∷ vs) h.chain in
    let out_of : (a : Ptr) → a ∈ (e ∷ vs) → a ∉ us =
      λ a. not_mem_of_apart us (e ∷ vs) a (apart a) in
    let l1 = join_next l (trail none us) (lead vs none) in
    let j =
      join_next-NextJoined l us (some e) (lead vs none) (h.head ∙ lead-append us (e ∷ vs) none) du
        before in
    let l2 = join_prev l1 (trail none us) (lead vs none) in
    let p =
      join_prev-PrevJoined l1 (some e) (trail none us) vs
        (j.tail ∙ h.tail ∙ trail-append none us (e ∷ vs)) dv.1
        (Chain-frame l.links l1.links (some e) none vs
          (λ a m. j.outside a (out_of a (ground (arith, m)))) after.1) in
    let all : Ptr → SuspendedLinks = update l2.links e null_links in
    record {
      head = p.head ∙ j.head ∙ sym (lead-append us vs none);
      tail = p.tail ∙ sym (trail-append none us vs);
      chain =
          Chain-append all none none us vs
            (Chain-frame l1.links all none (lead vs none) us
              (λ a m.
                update_ne l2.links e null_links a (ne_of_head a e vs (apart a m))
                ∙ p.outside a (not_mem_tail a e vs (apart a m)))
              j.chain)
            (Chain-frame l2.links all (trail none us) none vs
              (λ a m. update_ne l2.links e null_links a (ne_of_not_mem a e vs m dv.0)) p.chain);
      distinct = IsDistinct-append us vs du dv.1 (λ a m. not_mem_tail a e vs (apart a m));
      detached = λ a o. elim (Bool-cases (a == e)) [
        | inl i ↦ rw (i, update) refl
        | inr i ↦
            let out = not-mem-append a us vs o in
            update_ne l2.links e null_links a (ground (arith, i))
            ∙ p.outside a out.1
            ∙ j.outside a out.0
            ∙ h.detached a (ground (arith, has-append a us (e ∷ vs), out.0, out.1, i))
      ];
    }

-- A member is followed by the others, and unlinking it leaves them.
split_at :
    (e : Ptr) (xs : List Ptr)
    → e ∈ xs
    → (us : List Ptr) × (vs : List Ptr) × (xs ≡ us ++ (e ∷ vs)) × (Tree.remove e xs ≡ us ++ vs)
unfolding Tree.remove
split_at e [] m = absurd (cc)
split_at e (x ∷ xs) m = elim (Bool-cases (e == x)) [
  | inl i ↦
      let same : x ≡ e = ground arith in ([], xs, ap (λ y. y ∷ xs) same, rw (i, Tree.remove) refl)
  | inr i ↦
      let (us, vs, whole, rest) = split_at e xs (ground arith) in
      (x ∷ us, vs, ap (λ ys. x ∷ ys) whole, rw (i, Tree.remove) (ap (λ ys. x ∷ ys) rest))
]

-- `remove` of a listed entity takes it out of the sequence, and its links are null again.
pub remove-Lists :
    (l : SuspendedWaitList) (e : Ptr) (xs : List Ptr)
    → e ∈ xs
    → Lists l xs
    → Lists (remove l e) (Tree.remove e xs)
unfolding remove removed
remove-Lists l e xs m h =
    let (us, vs, whole, rest) = split_at e xs m in
    let held : Lists l (us ++ (e ∷ vs)) = subst (Lists l) whole h in
    let (before, after) = Chain-split l.links none none us (e ∷ vs) held.chain in
    let own = after.0 in
    let result : SuspendedLinks → Type 0 =
      λ n. Lists (removed l e n.suspended_prev n.suspended_next) (us ++ vs) in
    subst (Lists (remove l e)) (sym rest) (subst result (sym own) (removed-Lists l e us vs held))

no_neighbour : (xs : List Ptr) → lead xs none ≡ Tree.first xs
no_neighbour [] = refl
no_neighbour (x ∷ xs) = refl

next_in_order :
    (links : Ptr → SuspendedLinks) (before : Option Ptr) (e : Ptr) (xs : List Ptr)
    → e ∈ xs
    → Chain links before xs none
    → (links e).suspended_next ≡ Tree.next e xs
next_in_order links before e [] m c = absurd (cc)
next_in_order links before e (x ∷ xs) m c = elim (Bool-cases (e == x)) [
  | inl i ↦
      let same : e ≡ x = ground arith in
      let read : Ptr → Option Ptr = λ y. (links y).suspended_next in
      let next : SuspendedLinks → Option Ptr = λ n. n.suspended_next in
      rw (i, Tree.next) (ap read same ∙ ap next c.0 ∙ no_neighbour xs)
  | inr i ↦ rw (i, Tree.next) (next_in_order links (some x) e xs (ground arith) c.1)
]

-- The link that a traversal follows leads to the next member.
pub suspended_next-Lists :
    (l : SuspendedWaitList) (e : Ptr) (xs : List Ptr)
    → e ∈ xs
    → Lists l xs
    → (l.links e).suspended_next ≡ Tree.next e xs
suspended_next-Lists l e xs m h = next_in_order l.links none e xs m h.chain
