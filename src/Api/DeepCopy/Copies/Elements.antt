-- ===== src/Api/DeepCopy/Copies/Elements.antt =====
-- The loop over a slice: every element of the new array is a deep copy of its own, in cells of
-- its own.
use mailgun_operator.Base.{
  ℕ, suc, ◌≡◌, ◌≢◌, ◌<◌, ◌≤◌, refl, ap, sym, ◌∙◌, Option, some, List, [], ◌∷◌, ◌++◌, arith,
}
use mailgun_operator.Base.Lists.{length, length-append}
use mailgun_operator.Api.DeepCopy.Memory.{
  Heap, Ptr, Storable, Cmd, and_then, ◌>>=◌, ◌>>◌, lift, read, load, store,
}
use mailgun_operator.Api.DeepCopy.Runs.{
  Keeps, Grows, Runs, read-Grows, read-in_use, Grows-trans, Keeps-narrow,
}
use mailgun_operator.Api.DeepCopy.Copies.{replicate, element, set_element, copy_elements}
use mailgun_operator.Api.DeepCopy.Copies.Pointers.{
  stored, load-bind, store-bind, read-stored, cell-stored,
}

-- `deep_copy_into` copies the values of `A`, where `Shows x v k` says that `x` stands for `v` in
-- the memory `k`: the copy stands for the same, and does so by new cells alone.
pub record IsDeepCopy {Cell A V : Type 0} (Shows : A → V → Heap Cell → Type 0)
    (deep_copy_into : A → Cmd Cell A) : Type 0 where
  pub copies :
      (x : A) (v : V) (h : Heap Cell)
      → Shows x v h
      → Runs h (deep_copy_into x h) (λ y k. Shows y v k)
  pub stays : (x : A) (v : V) {h k : Heap Cell} → Shows x v h → Grows h k → Shows x v k

unfoldable pub ShowsAll :
    {Cell A V : Type 0} → (A → V → Heap Cell → Type 0) → List A → List V → Heap Cell → Type 0
ShowsAll Shows [] [] k = Unit
ShowsAll Shows [] (_ ∷ _) k = ⊥
ShowsAll Shows (_ ∷ _) [] k = ⊥
ShowsAll Shows (x ∷ xs) (v ∷ vs) k = Shows x v k × ShowsAll Shows xs vs k

module _ {A : Type 0} where
  element-append :
      (pre : List A) (x : A) (xs : List A) → element (length pre) (pre ++ x ∷ xs) ≡ some x
  unfolding element
  element-append [] x xs = refl
  element-append (_ ∷ pre) x xs = element-append pre x xs

  set_element-append :
      (pre : List A) (y x : A) (xs : List A)
      → set_element (length pre) y (pre ++ x ∷ xs) ≡ pre ++ y ∷ xs
  unfolding set_element
  set_element-append [] y x xs = refl
  set_element-append (z ∷ pre) y x xs = ap (λ l. z ∷ l) (set_element-append pre y x xs)

  snoc-append : (pre : List A) (x : A) (xs : List A) → (pre ++ x ∷ []) ++ xs ≡ pre ++ x ∷ xs
  snoc-append [] x xs = refl
  snoc-append (z ∷ pre) x xs = ap (λ l. z ∷ l) (snoc-append pre x xs)

  length-snoc : (pre : List A) (x : A) → length (pre ++ x ∷ []) ≡ suc (length pre)
  length-snoc pre x = length-append pre (x ∷ []) ∙ omega arith

-- What the loop leaves of the memory `h`, when it has filled the array at `to` behind `done`.
pub record Filled {Cell A V : Type 0} ⦃s : Storable Cell (List A)⦄
    (Shows : A → V → Heap Cell → Type 0) (to : Ptr (List A)) (done : List A) (vs : List V)
    (h : Heap Cell) (result : Option (Unit {0} × Heap Cell)) : Type 0 where
  pub filled : List A
  pub after : Heap Cell
  pub returns : result ≡ some (tt, after)
  pub in_use : h.next ≤ after.next
  pub same : (a : ℕ) → a < h.next → a ≢ to.address → after.cell a ≡ h.cell a
  pub reads : read to after ≡ some (done ++ filled)
  pub holds : (k : Heap Cell) → Keeps h.next after.next after k → ShowsAll Shows filled vs k

module _ {Cell A V : Type 0} ⦃e : Storable Cell A⦄ ⦃s : Storable Cell (List A)⦄
    {Shows : A → V → Heap Cell → Type 0} {deep_copy_into : A → Cmd Cell A}
    (law : IsDeepCopy Shows deep_copy_into) where
  Grows-stored :
      (to : Ptr (List A)) (ys : List A) (h k : Heap Cell)
      → h.next ≤ to.address
      → Grows h k
      → Grows h (stored to ys k)
  unfolding stored
  Grows-stored to ys h k new g = record {
    in_use = g.in_use;
    same = λ a from below. cell-stored to ys k a (λ e. omega arith) ∙ g.same a from below;
  }

  Filled-cons :
      (to : Ptr (List A)) (done ys : List A) (v : V) {vs : List V} {h : Heap Cell}
      → {copy : Option (A × Heap Cell)} {m n : Option (Unit {0} × Heap Cell)}
      → (r : Runs h copy (λ y k. Shows y v k)) → to.address < h.next
      → m ≡ n
      → Filled Shows to (done ++ r.value ∷ []) vs (stored to ys r.after) n
      → Filled Shows to done (v ∷ vs) h m
  unfolding stored ShowsAll
  Filled-cons to done ys v r old e rest =
      let k = r.after in
      let used = r.grows.in_use in
      let used' = rest.in_use in
      record {
        filled = r.value ∷ rest.filled;
        after = rest.after;
        returns = e ∙ rest.returns;
        in_use = omega arith;
        same = λ a below other.
            rest.same a (omega arith) other
            ∙ cell-stored to ys k a other
            ∙ r.grows.same a (omega arith) below;
        reads = rest.reads ∙ ap some (snoc-append done r.value rest.filled);
        holds = λ m kept. (
          r.holds m (record {
            in_use = let in_use = kept.in_use in omega arith;
            same = λ a from below.
                kept.same a from (omega arith)
                ∙ rest.same a below (λ eq. omega arith)
                ∙ cell-stored to ys k a (λ eq. omega arith);
          }),
          rest.holds m (Keeps-narrow k.next rest.after.next kept used (omega arith)),
        );
      }

  copy_elements-step :
      (from to : Ptr (List A)) (pre : List A) (x : A) (xs done : List A) (z y : A) (zs : List A)
      → (n : ℕ) (h k : Heap Cell) → read from h ≡ some (pre ++ x ∷ xs)
      → deep_copy_into x h ≡ some (y, k)
      → read to k ≡ some (done ++ z ∷ zs)
      → length done ≡ length pre
      → copy_elements deep_copy_into from to (length pre) (suc n) h
        ≡ copy_elements deep_copy_into from to (suc (length pre)) n (stored to (done ++ y ∷ zs) k)
  unfolding copy_elements
  copy_elements-step from to pre x xs done z y zs n h k reads copies zeros len =
      let i = length pre in
      let rest = copy_elements deep_copy_into from to (suc i) n in
      let put : A → Cmd Cell (Unit {0}) =
        λ b. load to >>= λ ys. store to (set_element i b ys) >> rest in
      load-bind from (λ us. lift (element i us) >>= λ a. deep_copy_into a >>= put) (pre ++ x ∷ xs) h
        reads
      ∙ ap (λ o. and_then (lift o h) (λ a. deep_copy_into a >>= put)) (element-append pre x xs)
      ∙ ap (λ o. and_then o put) copies
      ∙ load-bind to (λ ys. store to (set_element i y ys) >> rest) (done ++ z ∷ zs) k zeros
      ∙ store-bind to (set_element i y (done ++ z ∷ zs)) (λ _. rest) k
          (read-in_use to (done ++ z ∷ zs) k zeros)
      ∙ ap (λ j. rest (stored to (set_element j y (done ++ z ∷ zs)) k)) (sym len)
      ∙ ap (λ ys. rest (stored to ys k)) (set_element-append done y z zs)

  pub copy_elements-Filled :
      (from to : Ptr (List A)) (xs : List A) (vs : List V) (base : Heap Cell)
      → base.next ≤ to.address
      → (pre : List A) → read from base ≡ some (pre ++ xs)
      → ShowsAll Shows xs vs base
      → (done : List A) (h : Heap Cell) → Grows base h
      → length done ≡ length pre
      → read to h ≡ some (done ++ replicate (length xs) e.zero_value)
      → Filled Shows to done vs h (copy_elements deep_copy_into from to (length pre) (length xs) h)
  unfolding copy_elements ShowsAll replicate
  copy_elements-Filled from to [] [] base new pre reads shows done h g len zeros = record {
    filled = [];
    after = h;
    returns = refl;
    in_use = omega arith;
    same = λ _ _ _. refl;
    reads = zeros;
    holds = λ _ _. tt;
  }
  copy_elements-Filled from to [] (_ ∷ _) base new pre reads shows done h g len zeros =
      elim shows [ ]
  copy_elements-Filled from to (_ ∷ _) [] base new pre reads shows done h g len zeros =
      elim shows [ ]
  copy_elements-Filled from to (x ∷ xs) (v ∷ vs) base new pre reads shows done h g len zeros =
      let r = law.copies x v h (law.stays x v shows.0 g) in
      let y = r.value in
      let k = r.after in
      let reads' = read-Grows from (pre ++ x ∷ xs) g reads in
      let zeros' = read-Grows to (done ++ replicate (suc (length xs)) e.zero_value) r.grows zeros in
      let l = stored to (done ++ y ∷ replicate (length xs) e.zero_value) k in
      Filled-cons to done (done ++ y ∷ replicate (length xs) e.zero_value) v r
        (read-in_use to (done ++ replicate (suc (length xs)) e.zero_value) h zeros)
        (copy_elements-step from to pre x xs done e.zero_value y
            (replicate (length xs) e.zero_value) (length xs) h k reads' r.returns zeros' len
          ∙ ap (λ i. copy_elements deep_copy_into from to i (length xs) l)
              (sym (length-snoc pre x)))
        (copy_elements-Filled from to xs vs base new (pre ++ x ∷ [])
          (reads ∙ ap some (sym (snoc-append pre x xs))) shows.1 (done ++ y ∷ []) l
          (Grows-stored to _ base k new (Grows-trans g r.grows))
          (length-snoc done y ∙ ap suc len ∙ sym (length-snoc pre x))
          (read-stored to _ k (read-in_use to _ k zeros') ∙ ap some (sym (snoc-append done y _))))
