-- ===== src/Api/DeepCopy/Copies/Slices.antt =====
-- Copying a slice of plain values gives one with the same elements.
use mailgun_operator.Base.{◌≡◌, refl, ap, ◌∙◌, Option, none, some, List, [], ◌∷◌, arith}
use mailgun_operator.Base.Lists.{length}
use mailgun_operator.Api.DeepCopy.Memory.{Heap, Ptr, Slice, Storable, read, allocate}
use mailgun_operator.Api.DeepCopy.Runs.{Grows, Runs, Runs-pure, Runs-by, Grows-refl, read-Grows}
use mailgun_operator.Api.DeepCopy.Copies.{replicate, copied, copy_slice, make}
use mailgun_operator.Api.DeepCopy.Copies.Pointers.{
  Behind, stored, allocated, load-bind, store-bind, read-allocated, Runs-stored,
}

module _ {A : Type 0} where
  copied-replicate : (x : A) (xs : List A) → copied (replicate (length xs) x) xs ≡ xs
  unfolding copied replicate
  copied-replicate x [] = refl
  copied-replicate x (y ∷ ys) = ap (λ l. y ∷ l) (copied-replicate x ys)

module _ {Cell A : Type 0} ⦃e : Storable Cell A⦄ ⦃s : Storable Cell (List A)⦄ where
  -- The elements of a slice; nil has none.
  unfoldable pub listed : Slice A → Heap Cell → Option (List A)
  listed none h = some []
  listed (some p) h = read p h

  listed-Behind :
      (xs : List A) (p : Slice A) (k : Heap Cell)
      → Behind (λ ys _. ys ≡ xs) p k
      → listed p k ≡ some xs
  unfolding listed
  listed-Behind xs p k b = ap (λ q. listed q k) b.points ∙ b.reads ∙ ap some b.shows

  copy_slice-some :
      (from : Ptr (List A)) (xs : List A) (h : Heap Cell)
      → read from h ≡ some xs
      → copy_slice (some from) h
        ≡ some (
          some (record { address = h.next }),
          stored
              (record { address = h.next })
              xs
              (allocated (replicate (length xs) e.zero_value) h),
        )
  unfolding copy_slice make allocate allocated
  copy_slice-some from xs h reads =
      let to : Ptr (List A) = record { address = h.next } in
      let k = allocated (replicate (length xs) e.zero_value) h in
      load-bind from _ xs h reads
      ∙ load-bind to _ (replicate (length xs) e.zero_value) k
          (read-allocated (replicate (length xs) e.zero_value) h)
      ∙ store-bind to _ _ k (omega arith)
      ∙ ap (λ ys. some (some to, stored to ys k)) (copied-replicate e.zero_value xs)

  pub Runs-copy_slice :
      (p : Slice A) (xs : List A) (h : Heap Cell)
      → listed p h ≡ some xs
      → Runs h (copy_slice p h) (λ q k. listed q k ≡ some xs)
  unfolding copy_slice listed
  Runs-copy_slice none xs h e = Runs-pure (λ k. e)
  Runs-copy_slice (some p) xs h reads =
      let zeros = allocated (replicate (length xs) e.zero_value) h in
      Runs-by (copy_slice-some p xs h reads)
        (Runs-stored (replicate (length xs) e.zero_value) xs
          (Grows-refl (allocated (replicate (length xs) e.zero_value) h)) (λ _ _. refl))
        (listed-Behind xs)

  pub listed-stays :
      (p : Slice A) (xs : List A) {h k : Heap Cell}
      → listed p h ≡ some xs
      → Grows h k
      → listed p k ≡ some xs
  unfolding listed
  listed-stays none xs e g = e
  listed-stays (some p) xs e g = read-Grows p xs g e
