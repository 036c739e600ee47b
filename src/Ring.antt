-- ===== src/Ring.antt =====
-- The storage of `QueueState` in src/message.rs.
pub mod Fifo
use rtsched.Base.{
  ℕ, zero, suc, ◌+◌, ◌-◌, Option, none, some, List, [], ◌∷◌, Bool, ◌==◌, ltb, if◌then◌else◌,
}

module _ {T : Type 0} where
  abbrev pub get_elem? : List (Option T) → ℕ → Option T
  get_elem? [] i = none
  get_elem? (x ∷ xs) zero = x
  get_elem? (x ∷ xs) (suc i) = get_elem? xs i

  abbrev pub set : List (Option T) → ℕ → T → List (Option T)
  set [] i v = []
  set (x ∷ xs) zero v = some v ∷ xs
  set (x ∷ xs) (suc i) v = x ∷ set xs i v

pub record Ring (T : Type 0) : Type 0 where
  pub capacity : ℕ
  pub slots : List (Option T)
  pub head : ℕ
  pub len : ℕ

abbrev pub uninit : (T : Type 0) → ℕ → List (Option T)
uninit T zero = []
uninit T (suc n) = none ∷ uninit T n

-- `MessageQueue::new` refuses a capacity of 0.
unfoldable pub new : (T : Type 0) → ℕ → Option (Ring T)
new T n =
    if n == 0 then none else some (record { capacity = n; slots = uninit T n; head = 0; len = 0 })

module _ {T : Type 0} where
  abbrev pub is_full : Ring T → Bool
  is_full r = r.len == r.capacity

  abbrev pub is_empty : Ring T → Bool
  is_empty r = r.len == 0

  -- "Branch rather than divide": the slot that the next message goes to.
  abbrev pub tail : Ring T → ℕ
  tail r =
      let until_end = r.capacity - r.head in
      if ltb r.len until_end then r.head + r.len else r.len - until_end

  -- The part of `try_send` that runs when the ring is not full.
  unfoldable pub write : Ring T → T → Ring T
  write r message = record r { slots = set r.slots (tail r) message; len = r.len + 1 }

  abbrev pub next_head : Ring T → ℕ
  next_head r = if r.head == r.capacity - 1 then 0 else r.head + 1

  -- The part of `try_receive` that runs when the ring is not empty.
  unfoldable pub read : Ring T → Option T × Ring T
  read r = (get_elem? r.slots r.head, record r { head = next_head r; len = r.len - 1 })
