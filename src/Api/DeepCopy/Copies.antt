-- ===== src/Api/DeepCopy/Copies.antt =====
-- The statements that the copies are made of: a new variable behind a pointer, a new array behind
-- a slice, whose elements are copied at once or one by one.
pub mod Pointers
pub mod Slices
pub mod Elements
pub mod Deep
pub mod Steps
use mailgun_operator.Base.{ℕ, zero, suc, Option, none, some, List, [], ◌∷◌}
use mailgun_operator.Base.Lists.{length}
use mailgun_operator.Api.DeepCopy.Memory.{
  Ptr, Slice, Storable, Cmd, ◌>>=◌, ◌>>◌, pure, lift, load, store, allocate, new,
}

module _ {A : Type 0} where
  unfoldable pub replicate : ℕ → A → List A
  replicate zero x = []
  replicate (suc n) x = x ∷ replicate n x

  -- `copy(out, in)`: the array behind `out` afterwards.
  unfoldable pub copied : List A → List A → List A
  copied [] ys = []
  copied xs [] = xs
  copied (_ ∷ xs) (y ∷ ys) = y ∷ copied xs ys

  -- `xs[i]`; `none` where the program panics.
  unfoldable pub element : ℕ → List A → Option A
  element i [] = none
  element zero (x ∷ _) = some x
  element (suc i) (_ ∷ xs) = element i xs

  -- `xs[i] = y`
  unfoldable pub set_element : ℕ → A → List A → List A
  set_element i y [] = []
  set_element zero y (_ ∷ xs) = y ∷ xs
  set_element (suc i) y (x ∷ xs) = x ∷ set_element i y xs

module _ {Cell A : Type 0} ⦃s : Storable Cell A⦄ where
  -- `if in.X != nil { *out = new(A); **out = **in }`, behind `*out = *in`.
  unfoldable pub copy_pointer : Option (Ptr A) → Cmd Cell (Option (Ptr A))
  copy_pointer none = pure none
  copy_pointer (some from) = do to ← new; x ← load from; store to x; pure (some to)

module _ {Cell A : Type 0} ⦃e : Storable Cell A⦄ ⦃s : Storable Cell (List A)⦄ where
  -- `make([]A, n)`
  unfoldable pub make : ℕ → Cmd Cell (Ptr (List A))
  make n = allocate (replicate n e.zero_value)

  -- `if in.X != nil { *out = make([]A, len(*in)); copy(*out, *in) }`
  unfoldable pub copy_slice : Slice A → Cmd Cell (Slice A)
  copy_slice none = pure none
  copy_slice (some from) = do
    xs ← load from
    to ← make (length xs)
    ys ← load to
    store to (copied ys xs)
    pure (some to)

  -- `for i := range *in { (*in)[i].DeepCopyInto(&(*out)[i]) }` from `i` on, for `n` more elements.
  unfoldable pub copy_elements :
      (A → Cmd Cell A) → Ptr (List A) → Ptr (List A) → ℕ → ℕ → Cmd Cell (Unit {0})
  copy_elements deep_copy_into from to i zero = pure tt
  copy_elements deep_copy_into from to i (suc n) = do
    xs ← load from
    x ← lift (element i xs)
    y ← deep_copy_into x
    ys ← load to
    store to (set_element i y ys)
    copy_elements deep_copy_into from to (suc i) n

  -- `if in.X != nil { *out = make([]A, len(*in)); for i := range *in { ... } }`
  unfoldable pub copy_deep_slice : (A → Cmd Cell A) → Slice A → Cmd Cell (Slice A)
  copy_deep_slice deep_copy_into none = pure none
  copy_deep_slice deep_copy_into (some from) = do
    xs ← load from
    to ← make (length xs)
    copy_elements deep_copy_into from to 0 (length xs)
    pure (some to)

module _ {Cell A : Type 0} ⦃s : Storable Cell A⦄ where
  -- `DeepCopy`: nil for nil, and otherwise a new variable that `DeepCopyInto` fills.
  unfoldable pub deep_copy_by : (A → Cmd Cell A) → Option (Ptr A) → Cmd Cell (Option (Ptr A))
  deep_copy_by deep_copy_into none = pure none
  deep_copy_by deep_copy_into (some from) = do
    to ← new
    x ← load from
    y ← deep_copy_into x
    store to y
    pure (some to)
