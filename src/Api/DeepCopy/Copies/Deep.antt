-- ===== src/Api/DeepCopy/Copies/Deep.antt =====
-- A slice whose elements are copied one by one, and `DeepCopy` behind a pointer.
use mailgun_operator.Base.{suc, ◌≡◌, refl, ap, sym, ◌∙◌, Option, none, some, List, [], ◌∷◌, arith}
use mathlib.Core.Path.{subst}
use mailgun_operator.Base.Lists.{length}
use mailgun_operator.Api.DeepCopy.Memory.{
  Heap, Ptr, Slice, Storable, Cmd, and_then, ◌>>=◌, ◌>>◌, pure, read, store, allocate,
}
use mailgun_operator.Api.DeepCopy.Runs.{
  Grows, Runs, Runs-pure, Runs-by, read-Keeps, read-Grows, Keeps-narrow,
}
use mailgun_operator.Api.DeepCopy.Copies.{
  replicate, copy_elements, copy_deep_slice, make, deep_copy_by,
}
use mailgun_operator.Api.DeepCopy.Copies.Pointers.{
  Behind, Runs-stored, allocated, load-bind, store-bind, read-allocated, Grows-allocated,
}
use mailgun_operator.Api.DeepCopy.Copies.Elements.{IsDeepCopy, ShowsAll, copy_elements-Filled}

module _ {Cell A V : Type 0} (Shows : A → V → Heap Cell → Type 0) where
  -- The elements of the slice stand for those of the list; nil stands for none.
  unfoldable pub ShowsSlice : ⦃s : Storable Cell (List A)⦄ → Slice A → List V → Heap Cell → Type 0
  ShowsSlice none vs k = vs ≡ []
  ShowsSlice (some p) vs k = (xs : List A) × (read p k ≡ some xs) × ShowsAll Shows xs vs k

  -- The variable behind the pointer stands for the value; nil stands for none.
  unfoldable pub ShowsPtr : ⦃s : Storable Cell A⦄ → Option (Ptr A) → Option V → Heap Cell → Type 0
  ShowsPtr none none k = Unit
  ShowsPtr none (some _) k = ⊥
  ShowsPtr (some _) none k = ⊥
  ShowsPtr (some p) (some v) k = (x : A) × (read p k ≡ some x) × Shows x v k

module _ {Cell A V : Type 0} ⦃e : Storable Cell A⦄ ⦃s : Storable Cell (List A)⦄
    {Shows : A → V → Heap Cell → Type 0} {deep_copy_into : A → Cmd Cell A}
    (law : IsDeepCopy Shows deep_copy_into) where
  ShowsAll-stays :
      (xs : List A) (vs : List V) {h k : Heap Cell}
      → ShowsAll Shows xs vs h
      → Grows h k
      → ShowsAll Shows xs vs k
  unfolding ShowsAll
  ShowsAll-stays [] [] shows g = tt
  ShowsAll-stays (x ∷ xs) (v ∷ vs) shows g =
      (law.stays x v shows.0 g, ShowsAll-stays xs vs shows.1 g)
  ShowsAll-stays [] (_ ∷ _) shows g = elim shows [ ]
  ShowsAll-stays (_ ∷ _) [] shows g = elim shows [ ]

  pub ShowsSlice-stays :
      (p : Slice A) (vs : List V) {h k : Heap Cell}
      → ShowsSlice Shows p vs h
      → Grows h k
      → ShowsSlice Shows p vs k
  unfolding ShowsSlice
  ShowsSlice-stays none vs shows g = shows
  ShowsSlice-stays (some p) vs shows g =
      let (xs, reads, all) = shows in (xs, read-Grows p xs g reads, ShowsAll-stays xs vs all g)

  pub Runs-copy_deep_slice :
      (p : Slice A) (vs : List V) (h : Heap Cell)
      → ShowsSlice Shows p vs h
      → Runs h (copy_deep_slice deep_copy_into p h) (λ q k. ShowsSlice Shows q vs k)
  unfolding copy_deep_slice ShowsSlice make allocate allocated
  Runs-copy_deep_slice none vs h shows = Runs-pure (λ k. shows)
  Runs-copy_deep_slice (some from) vs h shows =
      let (xs, reads, all) = shows in
      let zeros = replicate (length xs) e.zero_value in
      let to : Ptr (List A) = record { address = h.next } in
      let k = allocated zeros h in
      let loop =
        copy_elements-Filled law from to xs vs h (omega arith) [] reads all [] k
          (Grows-allocated zeros h) refl (read-allocated zeros h) in
      let used = loop.in_use in
      record {
        value = some to;
        after = loop.after;
        returns =
            load-bind from
              (λ ys. make (length ys) >>= λ q.
                copy_elements deep_copy_into from q 0 (length ys) >> pure (some q))
              xs h reads
            ∙ ap (λ o. and_then o (λ _. pure (some to))) loop.returns;
        grows = record {
          in_use = omega arith;
          same = λ a from below.
              loop.same a (omega arith) (λ eq. omega arith)
              ∙ (Grows-allocated zeros h).same a from below;
        };
        holds = λ l kept. (
          loop.filled,
          read-Keeps to loop.filled kept (omega arith) (omega arith) loop.reads,
          loop.holds l (Keeps-narrow (suc h.next) loop.after.next kept (omega arith) (omega arith)),
        );
      }

module _ {Cell A V : Type 0} ⦃s : Storable Cell A⦄ {Shows : A → V → Heap Cell → Type 0}
    {deep_copy_into : A → Cmd Cell A} (law : IsDeepCopy Shows deep_copy_into) where
  pub ShowsPtr-stays :
      (p : Option (Ptr A)) (v : Option V) {h k : Heap Cell}
      → ShowsPtr Shows p v h
      → Grows h k
      → ShowsPtr Shows p v k
  unfolding ShowsPtr
  ShowsPtr-stays none none shows g = tt
  ShowsPtr-stays (some p) (some v) shows g =
      let (x, reads, is) = shows in (x, read-Grows p x g reads, law.stays x v is g)
  ShowsPtr-stays none (some _) shows g = elim shows [ ]
  ShowsPtr-stays (some _) none shows g = elim shows [ ]

  ShowsPtr-Behind :
      (v : V) (p : Option (Ptr A)) (k : Heap Cell)
      → Behind (λ y l. Shows y v l) p k
      → ShowsPtr Shows p (some v) k
  unfolding ShowsPtr
  ShowsPtr-Behind v p k b =
      subst (λ q. ShowsPtr Shows q (some v) k) (sym b.points) (b.value, b.reads, b.shows)

  pub Runs-deep_copy_by :
      (p : Option (Ptr A)) (v : Option V) (h : Heap Cell)
      → ShowsPtr Shows p v h
      → Runs h (deep_copy_by deep_copy_into p h) (λ q k. ShowsPtr Shows q v k)
  unfolding deep_copy_by ShowsPtr allocate allocated
  Runs-deep_copy_by none none h shows = Runs-pure (λ k. tt)
  Runs-deep_copy_by none (some _) h shows = elim shows [ ]
  Runs-deep_copy_by (some _) none h shows = elim shows [ ]
  Runs-deep_copy_by (some from) (some v) h shows =
      let (x, reads, is) = shows in
      let to : Ptr A = record { address = h.next } in
      let k = allocated s.zero_value h in
      let g = Grows-allocated s.zero_value h in
      let r = law.copies x v k (law.stays x v is g) in
      let used = r.grows.in_use in
      Runs-by
        (load-bind from (λ y. deep_copy_into y >>= λ z. store to z >> pure (some to)) x k
            (read-Grows from x g reads)
          ∙ ap (λ o. and_then o (λ z. store to z >> pure (some to))) r.returns
          ∙ store-bind to r.value (λ _. pure (some to)) r.after (omega arith))
        (Runs-stored s.zero_value r.value r.grows r.holds) (ShowsPtr-Behind v)
