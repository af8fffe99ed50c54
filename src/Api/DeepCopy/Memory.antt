-- ===== src/Api/DeepCopy/Memory.antt =====
-- The memory of a Go program as far as a copy needs it: typed pointers, `new`, `*p`, `*p = x`. A
-- slice stands for the array that it spans.
use mailgun_operator.Base.{ℕ, suc, Option, none, some, List, if◌then◌else◌, ltb, nat_eq}
use mailgun_operator.Base.{◌≡◌}

-- `*A`, without nil.
pub record Ptr (A : Type 0) : Type 0 where
  pub address : ℕ

-- `[]A`; `none` is nil.
abbrev pub Slice : Type 0 → Type 0
Slice A = Option (Ptr (List A))

-- `next` is the first address that is not in use.
pub record Heap (Cell : Type 0) : Type 0 where
  pub next : ℕ
  pub cell : ℕ → Option Cell

-- The values of a type that stand in a cell, with the zero value of the type.
pub record Storable (Cell A : Type 0) : Type 0 where
  pub zero_value : A
  pub into : A → Cell
  pub from : Cell → Option A
  pub from-into : (x : A) → from (into x) ≡ some x

-- `none` is a fault.
abbrev pub Cmd : Type 0 → Type 0 → Type 0
Cmd Cell A = Heap Cell → Option (A × Heap Cell)

module _ {Cell A B : Type 0} where
  abbrev pub and_then : Option (A × Heap Cell) → (A → Cmd Cell B) → Option (B × Heap Cell)
  and_then none f = none
  and_then (some (x, h)) f = f x h

  infixl 5 ◌>>=◌ ◌>>◌
  abbrev pub ◌>>=◌ : Cmd Cell A → (A → Cmd Cell B) → Cmd Cell B
  m >>= f = λ h. and_then (m h) f

  abbrev pub ◌>>◌ : Cmd Cell A → Cmd Cell B → Cmd Cell B
  m >> n = m >>= λ _. n

abbrev pub write : {Cell : Type 0} → ℕ → Cell → (ℕ → Option Cell) → ℕ → Option Cell
write a c cells b = if nat_eq b a then some c else cells b

module _ {Cell A : Type 0} where
  abbrev pub pure : A → Cmd Cell A
  pure x h = some (x, h)

  -- The steps of a fallible computation that leaves the memory alone.
  abbrev pub lift : Option A → Cmd Cell A
  lift none h = none
  lift (some x) h = some (x, h)

module _ {Cell A : Type 0} ⦃s : Storable Cell A⦄ where
  abbrev pub decode : Option Cell → Option A
  decode none = none
  decode (some c) = s.from c

  unfoldable pub read : Ptr A → Heap Cell → Option A
  read p h = if ltb p.address h.next then decode (h.cell p.address) else none

  -- `*p`
  abbrev pub load : Ptr A → Cmd Cell A
  load p h = lift (read p h) h

  -- `*p = x`
  unfoldable pub store : Ptr A → A → Cmd Cell (Unit {0})
  store p x h =
      if ltb p.address h.next
      then some (tt, record { next = h.next; cell = write p.address (s.into x) h.cell })
      else none

  -- A new variable with the value `x`.
  unfoldable pub allocate : A → Cmd Cell (Ptr A)
  allocate x h = some (
    record { address = h.next },
    record { next = suc h.next; cell = write h.next (s.into x) h.cell },
  )

  -- `new(A)`
  abbrev pub new : Cmd Cell (Ptr A)
  new = allocate s.zero_value
