-- ===== src/Ring/Fifo.antt =====
-- The ring of src/message.rs holds a bounded queue of messages, oldest first.
use rtsched.Base.{
  ℕ, zero, suc, ◌+◌, ◌-◌, ◌≤◌, ◌<◌, ◌≡◌, ◌≢◌, ◌∙◌, refl, Option, some, List, [], ◌∷◌, ◌++◌, ◌==◌,
  ltb, if◌then◌else◌, arith, length, length-append,
}
use rtsched.Ring.{Ring, get_elem?, set, uninit, new, tail, write, read}

-- The slot after `h`, and the slot `n` places on, for `n` below the capacity.
abbrev pub after : ℕ → ℕ → ℕ
after size h = if h == size - 1 then 0 else h + 1

abbrev pub place : ℕ → ℕ → ℕ → ℕ
place size h n = if ltb n (size - h) then h + n else n - (size - h)

place-suc :
    (size h n : ℕ) → h < size → suc n < size → place size h (suc n) ≡ place size (after size h) n
place-suc size h n hh hn = ground arith

place-ne : (size h n : ℕ) → h < size → suc n < size → place size h (suc n) ≢ h
place-ne size h n hh hn = ground arith

uninit-length : (S : Type 0) (n : ℕ) → length (uninit S n) ≡ n
uninit-length S zero = refl
uninit-length S (suc n) = omega (arith, uninit-length S n)

module _ {T : Type 0} where
  length-set : (xs : List (Option T)) (i : ℕ) (v : T) → length (set xs i v) ≡ length xs
  length-set [] i v = refl
  length-set (x ∷ xs) zero v = refl
  length-set (x ∷ xs) (suc i) v = omega (arith, length-set xs i v)

  get_elem?-set_self :
      (xs : List (Option T)) (i : ℕ) (v : T) → i < length xs → get_elem? (set xs i v) i ≡ some v
  get_elem?-set_self [] i v h = absurd (omega arith)
  get_elem?-set_self (x ∷ xs) zero v h = refl
  get_elem?-set_self (x ∷ xs) (suc i) v h = get_elem?-set_self xs i v (omega arith)

  get_elem?-set_ne :
      (xs : List (Option T)) (i j : ℕ) (v : T) → i ≢ j → get_elem? (set xs i v) j ≡ get_elem? xs j
  get_elem?-set_ne [] i j v h = refl
  get_elem?-set_ne (x ∷ xs) zero zero v h = absurd (h refl)
  get_elem?-set_ne (x ∷ xs) zero (suc j) v h = refl
  get_elem?-set_ne (x ∷ xs) (suc i) zero v h = refl
  get_elem?-set_ne (x ∷ xs) (suc i) (suc j) v h = get_elem?-set_ne xs i j v (omega arith)

  -- From slot `h` on, the slots are initialised with these messages.
  abbrev pub HoldsFrom : ℕ → List (Option T) → ℕ → List T → Type 0
  HoldsFrom size slots h [] = Unit {0}
  HoldsFrom size slots h (m ∷ ms) =
      (get_elem? slots h ≡ some m) × HoldsFrom size slots (after size h) ms

  -- Writing just behind the held messages keeps them and adds the new one.
  HoldsFrom-set :
      (size : ℕ) (slots : List (Option T)) (h i : ℕ) (ms : List T) (last : T)
      → length slots ≡ size
      → h < size
      → length ms < size
      → i ≡ place size h (length ms)
      → HoldsFrom size slots h ms
      → HoldsFrom size (set slots i last) h (ms ++ (last ∷ []))
  HoldsFrom-set size slots h i [] last e hh hn at held =
      let here : i ≡ h = ground arith in
      (rw here (get_elem?-set_self slots h last (omega arith)), tt)
  HoldsFrom-set size slots h i (m ∷ ms) last e hh hn at held =
      let shift = place-suc size h (length ms) hh hn in
      let apart : i ≢ h = rw at (place-ne size h (length ms) hh hn) in
      (
        get_elem?-set_ne slots i h last apart ∙ held.0,
        HoldsFrom-set size slots (after size h) i ms last e (ground arith) (omega arith)
            (at ∙ shift) held.1,
      )

  -- The ring holds these messages, oldest first.
  pub record Holds (r : Ring T) (ms : List T) : Type 0 where
    pub slots_len : length r.slots ≡ r.capacity
    pub head_in : r.head < r.capacity
    pub len_in : r.len ≤ r.capacity
    pub count : length ms ≡ r.len
    pub held : HoldsFrom r.capacity r.slots r.head ms

  -- A message written to a ring that is not full comes behind those that it holds.
  pub Holds-write :
      (r : Ring T) (ms : List T) (m : T)
      → Holds r ms
      → r.len ≢ r.capacity
      → Holds (write r m) (ms ++ (m ∷ []))
  unfolding write
  Holds-write r ms m v ne = record {
    slots_len = length-set r.slots (tail r) m ∙ v.slots_len;
    head_in = v.head_in;
    len_in = omega (arith, v.len_in);
    count = omega (arith, length-append ms (m ∷ []), v.count);
    held =
        HoldsFrom-set r.capacity r.slots r.head (tail r) ms m v.slots_len v.head_in
          (omega (arith, v.count, v.len_in)) (rw v.count refl) v.held;
  }

  -- What is read from a ring that is not empty is its oldest message, an initialised slot.
  pub Holds-read :
      (r : Ring T) (m : T) (ms : List T)
      → Holds r (m ∷ ms)
      → ((read r).0 ≡ some m) × Holds (read r).1 ms
  unfolding read
  Holds-read r m ms v = (
    v.held.0,
    record {
      slots_len = v.slots_len;
      head_in = ground (arith, v.head_in);
      len_in = omega (arith, v.len_in);
      count = omega (arith, v.count);
      held = v.held.1;
    },
  )

  pub Holds-new : (n : ℕ) {r : Ring T} → new T n ≡ some r → Holds r []
  unfolding new
  Holds-new n h = ground (arith, uninit-length T n)

  pub capacity-write : (r : Ring T) (m : T) → (write r m).capacity ≡ r.capacity
  unfolding write
  capacity-write r m = refl

  pub capacity-read : (r : Ring T) → (read r).1.capacity ≡ r.capacity
  unfolding read
  capacity-read r = refl
