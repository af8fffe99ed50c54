-- ===== src/Api/DeepCopy/Copies/Steps.antt =====
-- Proofs about a sequence of copies, written in the order of the copies by `do`.
use mailgun_operator.Base.{◌≡◌, Option, some, List}
use mailgun_operator.Api.DeepCopy.Memory as Memory
use mailgun_operator.Api.DeepCopy.Memory.{Heap, Ptr, Slice, Storable, Cmd, pure}
use mailgun_operator.Api.DeepCopy.Runs.{Grows, Runs, Grows-refl, Grows-trans, Runs-bind, Runs-pure}
use mailgun_operator.Api.DeepCopy.Copies.{copy_pointer, copy_slice, copy_deep_slice}
use mailgun_operator.Api.DeepCopy.Copies.Pointers.{shown, shown-stays, Runs-copy_pointer}
use mailgun_operator.Api.DeepCopy.Copies.Slices.{listed, listed-stays, Runs-copy_slice}
use mailgun_operator.Api.DeepCopy.Copies.Elements.{IsDeepCopy}
use mailgun_operator.Api.DeepCopy.Copies.Deep.{ShowsSlice, ShowsSlice-stays, Runs-copy_deep_slice}

-- `m` runs in every memory that has the cells of `base`.
pub record Step {Cell A : Type 0} (base : Heap Cell) (m : Cmd Cell A) (Q : A → Heap Cell → Type 0)
    : Type 0 where
  pub at : (k : Heap Cell) → Grows base k → Runs k (m k) Q

module _ {Cell A : Type 0} {base : Heap Cell} where
  pub run : {m : Cmd Cell A} {Q : A → Heap Cell → Type 0} → Step base m Q → Runs base (m base) Q
  run step = step.at base (Grows-refl base)

  pub finish :
      {x : A} {Q : A → Heap Cell → Type 0} → ((k : Heap Cell) → Q x k) → Step base (pure x) Q
  finish q = record { at = λ _ _. Runs-pure q }

module _ {Cell A B : Type 0} {base : Heap Cell} where
  infixl 5 ◌>>=◌
  pub ◌>>=◌ :
      {m : Cmd Cell A} {f : A → Cmd Cell B} {P : A → Heap Cell → Type 0}
      {Q : B → Heap Cell → Type 0}
      → Step base m P
      → ((x : A) → Step base (f x) (λ y l. P x l → Q y l))
      → Step base (Memory.◌>>=◌ m f) Q
  ◌>>=◌ {m} {f} first rest = record {
    at = λ h g. Runs-bind m f (first.at h g) (λ x k new. (rest x).at k (Grows-trans g new));
  }

module _ {Cell A : Type 0} ⦃s : Storable Cell A⦄ where
  pub pointer_copied :
      (p : Option (Ptr A)) {v : Option A} {base : Heap Cell}
      → shown p base ≡ some v
      → Step base (copy_pointer p) (λ q l. shown q l ≡ some v)
  pointer_copied p {v} e = record { at = λ k g. Runs-copy_pointer p v k (shown-stays p v e g) }

module _ {Cell A : Type 0} ⦃e : Storable Cell A⦄ ⦃s : Storable Cell (List A)⦄ where
  pub slice_copied :
      (p : Slice A) {xs : List A} {base : Heap Cell}
      → listed p base ≡ some xs
      → Step base (copy_slice p) (λ q l. listed q l ≡ some xs)
  slice_copied p {xs} e = record { at = λ k g. Runs-copy_slice p xs k (listed-stays p xs e g) }

module _ {Cell A V : Type 0} {Shows : A → V → Heap Cell → Type 0} {deep_copy_into : A → Cmd Cell A}
    (law : IsDeepCopy Shows deep_copy_into) where
  pub struct_copied :
      (x : A) {v : V} {base : Heap Cell}
      → Shows x v base
      → Step base (deep_copy_into x) (λ y l. Shows y v l)
  struct_copied x {v} s = record { at = λ k g. law.copies x v k (law.stays x v s g) }

  pub deep_slice_copied :
      ⦃e : Storable Cell A⦄ ⦃s : Storable Cell (List A)⦄ (p : Slice A) (vs : List V)
      → {base : Heap Cell} → ShowsSlice Shows p vs base
      → Step base (copy_deep_slice deep_copy_into p) (λ q l. ShowsSlice Shows q vs l)
  deep_slice_copied p vs s = record {
    at = λ k g. Runs-copy_deep_slice law p vs k (ShowsSlice-stays law p vs s g);
  }
