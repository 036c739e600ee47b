-- ===== src/WaitQueue/Suspended/Refines.antt =====
-- The pointers of `SuspendedWaitList` against the sequence of its members, which
-- WaitQueue.antt works on.
use rtsched.Base.{
  Ptr, ◌||◌, Option, none, some, List, [], ◌∷◌, ◌++◌, ◌≡◌, ◌≢◌, refl, sym, ap, ◌∙◌, subst, has, ◌∈◌,
  ◌∉◌, IsDistinct, arith, update, update_self, update_ne,
}
use rtsched.WaitQueue.Suspended.{
  SuspendedLinks, SuspendedWaitList, null_links, set_prev, link_last, push_back,
}
use rtsched.WaitQueue.Suspended.Chain.{
  lead, trail, Chain, Chain-frame, Chain-set_next, Chain-append, mem-trail, trail-append,
  trail-some,
}

-- Head, tail and links say that the members are those of the sequence, in this order, and every other
-- entity has null links.
pub record Lists (l : SuspendedWaitList) (xs : List Ptr) : Type 0 where
  pub head : l.head ≡ lead xs none
  pub tail : l.tail ≡ trail none xs
  pub chain : Chain l.links none xs none
  pub distinct : IsDistinct xs
  pub detached : (a : Ptr) → a ∉ xs → l.links a ≡ null_links

pub has-append : (a : Ptr) (xs ys : List Ptr) → has a (xs ++ ys) ≡ (has a xs || has a ys)
has-append a [] ys = refl
has-append a (x ∷ xs) ys = ground (arith, has-append a xs ys)

pub not-mem-append : (a : Ptr) (xs ys : List Ptr) → a ∉ (xs ++ ys) → (a ∉ xs) × (a ∉ ys)
not-mem-append a xs ys out =
    (ground (arith, has-append a xs ys, out), ground (arith, has-append a xs ys, out))

pub ne_of_mem : (a t : Ptr) (xs : List Ptr) → t ∈ xs → a ∉ xs → a ≢ t
ne_of_mem a t xs m out i = absurd (ground (arith, subst (λ b. b ∉ xs) i out, m))

IsDistinct-snoc : (e : Ptr) (xs : List Ptr) → e ∉ xs → IsDistinct xs → IsDistinct (xs ++ (e ∷ []))
IsDistinct-snoc e [] out d = (refl, tt)
IsDistinct-snoc e (x ∷ xs) out d =
    (ground (arith, has-append x xs (e ∷ []), d.0), IsDistinct-snoc e xs (ground arith) d.1)

pub with_prev : Option Ptr → SuspendedLinks → SuspendedLinks
with_prev prev n = record n { suspended_prev = prev }

-- `push_back` for the tail that is read.
pushed : SuspendedWaitList → Ptr → Option Ptr → SuspendedWaitList
pushed l e tail = record (link_last (set_prev l e tail) e tail) { tail = some e }

pushed-Lists :
    (l : SuspendedWaitList) (e : Ptr) (xs : List Ptr)
    → e ∉ xs
    → Lists l xs
    → Lists (pushed l e (trail none xs)) (xs ++ (e ∷ []))
unfolding pushed with_prev
pushed-Lists l e [] out h = record {
  head = refl;
  tail = refl;
  chain = (update_self l.links e _ ∙ ap (with_prev none) (h.detached e refl), tt);
  distinct = (refl, tt);
  detached = λ a o. update_ne l.links e _ a (ground arith) ∙ h.detached a refl;
}
pushed-Lists l e (x ∷ xs) out h =
    let (t, last) = trail-some x xs in
    let put : Ptr → SuspendedLinks =
      update l.links e (record (l.links e) { suspended_prev = some t }) in
    let all : Ptr → SuspendedLinks = update put t (record (put t) { suspended_next = some e }) in
    let kept =
      Chain-frame l.links put none none (x ∷ xs)
        (λ a m. update_ne l.links e _ a (ground (arith, m, out))) h.chain in
    let member = mem-trail x t xs last in
    let other = ne_of_mem e t (x ∷ xs) member out in
    let at_end : all e ≡ record { suspended_prev = some t; suspended_next = none } =
      update_ne put t _ e other
      ∙ update_self l.links e _
      ∙ ap (with_prev (some t)) (h.detached e out) in
    subst (λ o. Lists (pushed l e o) (x ∷ xs ++ (e ∷ []))) (sym last)
      (record {
        head = h.head;
        tail = sym (trail-append none (x ∷ xs) (e ∷ []));
        chain =
            Chain-append all none none (x ∷ xs) (e ∷ [])
              (Chain-set_next put none none (some e) x t xs last h.distinct kept)
              (at_end ∙ ap (λ o. with_prev o null_links) (sym last), tt);
        distinct = IsDistinct-snoc e (x ∷ xs) out h.distinct;
        detached = λ a o.
            let apart = not-mem-append a (x ∷ xs) (e ∷ []) o in
            update_ne put t _ a (ne_of_mem a t (x ∷ xs) member apart.0)
            ∙ update_ne l.links e _ a (ground (arith, apart.1))
            ∙ h.detached a apart.0;
      })

-- `push_back` of an entity that is not listed puts it at the end of the sequence.
pub push_back-Lists :
    (l : SuspendedWaitList) (e : Ptr) (xs : List Ptr)
    → e ∉ xs
    → Lists l xs
    → Lists (push_back l e) (xs ++ (e ∷ []))
unfolding push_back pushed
push_back-Lists l e xs out h =
    subst (λ o. Lists (pushed l e o) (xs ++ (e ∷ []))) (sym h.tail) (pushed-Lists l e xs out h)
