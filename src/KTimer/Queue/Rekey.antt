-- ===== src/KTimer/Queue/Rekey.antt =====
-- A queued timer of src/ktimer.rs is taken out, given another expiration, and put back.
use rtsched.Base.{
  ◌<◌, Ptr, Bool, true, false, ◌≡◌, refl, sym, ◌∙◌, ap, ◌==◌, arith, All, All-mem, All-of_mem, ◌∈◌,
  Bool-cases, inl, inr, if◌then◌else◌,
}
use rtsched.KTimer.{KTimerEntity}
use rtsched.KTimer.Queue.{KTimerQueue, set_entity, insert, remove, contains}
use rtsched.KTimer.Queue.Inv.{IsValid, set_entity-IsValid}
use rtsched.KTimer.Queue.Members.{remove_lem, insert_lem, not-mem-inactive}

-- The queue `q'` is `q` with the entity of one linked timer replaced and the timer put in the tree of
-- its new flag: the same timers are linked, and no other entity changes.
pub record IsRekeyed (q q' : KTimerQueue) (e : Ptr) (x : KTimerEntity) : Type 0 where
  pub valid : IsValid q'
  pub entities : (a : Ptr) → q'.entities a ≡ (if a == e then x else q.entities a)
  pub members : (a : Ptr) → contains q' a ≡ contains q a
  pub clock : q'.now_ticks ≡ q.now_ticks

insert-entities :
    (q : KTimerQueue) (p a : Ptr) (x : KTimerEntity) (active : Bool)
    → (insert (set_entity q p x) p active).entities a
      ≡ (if a == p then record x { active = active } else q.entities a)
unfolding insert
insert-entities q p a x true = ground arith
insert-entities q p a x false = ground arith

insert-clock :
    (q : KTimerQueue) (p : Ptr) (active : Bool) → (insert q p active).now_ticks ≡ q.now_ticks
unfolding insert
insert-clock q p true = refl
insert-clock q p false = refl

set_entity-contains :
    (q : KTimerQueue) (p a : Ptr) (x : KTimerEntity) → contains (set_entity q p x) a ≡ contains q a
unfolding contains
set_entity-contains q p a x = refl

pub insert-IsRekeyed :
    (q : KTimerQueue) (e : Ptr) (x : KTimerEntity) (active : Bool)
    → IsValid q
    → contains q e ≡ true
    → IsRekeyed q (insert (set_entity (remove q e) e x) e active) e (record x { active = active })
insert-IsRekeyed q e x active v linked =
    let out = remove_lem q e v linked in
    let w = set_entity (remove q e) e x in
    let put = insert_lem w e active out.1 (set_entity-IsValid (remove q e) e x out.1 out.0) in
    record {
      valid = put.0;
      entities = λ a.
          insert-entities (remove q e) e a x active
          ∙ ap
              (λ (entities : Ptr → KTimerEntity).
                if a == e then record x { active = active } else entities a)
              out.3;
      members = λ a. elim (Bool-cases (a == e)) [
        | inl i ↦ let same : a ≡ e = ground arith in ground (arith, put.2 a, same, linked)
        | inr i ↦ ground (arith, put.2 a, set_entity-contains (remove q e) e a x, out.2 a)
      ];
      clock = insert-clock w e active ∙ out.4;
    }

-- A timer that is not linked can be written at once.
pub set_entity-IsRekeyed :
    (q : KTimerQueue) (e : Ptr) (x : KTimerEntity)
    → IsValid q
    → contains q e ≡ false
    → IsRekeyed q (set_entity q e x) e x
unfolding contains
set_entity-IsRekeyed q e x v out = record {
  valid = set_entity-IsValid q e x (ground arith) v;
  entities = λ a. ground arith;
  members = λ a. refl;
  clock = refl;
}

-- No active timer is due.
abbrev pub IsAhead : KTimerQueue → Type 0
IsAhead q = All (λ a. q.now_ticks < (q.entities a).expire_at) q.active_tree

active-mem :
    (q : KTimerQueue) (a : Ptr)
    → IsValid q
    → contains q a ≡ true
    → (q.entities a).active ≡ true
    → a ∈ q.active_tree
unfolding contains
active-mem q a v linked on = ground (arith, not-mem-inactive q a v on)

mem-contains : (q : KTimerQueue) (a : Ptr) → a ∈ q.active_tree → contains q a ≡ true
unfolding contains
mem-contains q a m = ground arith

-- It stays so if the new expiration is ahead too.
pub IsRekeyed-IsAhead :
    {q q' : KTimerQueue} {e : Ptr} {x : KTimerEntity}
    → IsValid q
    → IsRekeyed q q' e x
    → IsAhead q
    → q.now_ticks < x.expire_at
    → IsAhead q'
IsRekeyed-IsAhead {q} {q'} {e} {x} v r ahead h =
    All-of_mem (λ a. q'.now_ticks < (q'.entities a).expire_at) q'.active_tree
      λ a m. elim (Bool-cases (a == e)) [
        | inl i ↦ let new : q'.entities a ≡ x = ground (arith, r.entities a) in rw (new, r.clock) h
        | inr i ↦
            let old : q'.entities a ≡ q.entities a = ground (arith, r.entities a) in
            let on : (q'.entities a).active ≡ true =
              All-mem (λ b. (q'.entities b).active ≡ true) a q'.active_tree r.valid.active_flags
                m in
            let linked = sym (r.members a) ∙ mem-contains q' a m in
            rw (old, r.clock)
              (All-mem (λ b. q.now_ticks < (q.entities b).expire_at) a q.active_tree ahead
                (active-mem q a v linked (ap (λ (y : KTimerEntity). y.active) (sym old) ∙ on)))
      ]
