-- ===== src/Api/DeepCopy/Copies/Pointers.antt =====
-- A variable that is new, and then filled, is what the pointer shows, and copying a pointer
-- gives one that shows the same.
use mailgun_operator.Base.{ℕ, suc, ◌≡◌, ◌≢◌, ◌<◌, refl, ap, sym, ◌∙◌, Option, none, some, arith}
use mailgun_operator.Api.DeepCopy.Memory.{
  Heap, Ptr, Storable, Cmd, and_then, ◌>>=◌, lift, read, load, store, allocate, write,
}
use mailgun_operator.Api.DeepCopy.Runs.{
  Keeps, Grows, Runs, Runs-pure, Runs-by, Grows-refl, read-Keeps, read-Grows,
}
use mailgun_operator.Api.DeepCopy.Copies.{copy_pointer}

module _ {A : Type 0} where
  abbrev behind : Option A → Option (Option A)
  behind none = none
  behind (some x) = some (some x)

  behind-some :
      (o : Option A) (v : Option A) → behind o ≡ some v → (x : A) × (o ≡ some x) × (v ≡ some x)
  behind-some none v e = ground arith
  behind-some (some x) v e = (x, refl, ground arith)

module _ {Cell A : Type 0} ⦃s : Storable Cell A⦄ where
  -- The memory after `*p = x`.
  unfoldable pub stored : Ptr A → A → Heap Cell → Heap Cell
  stored p x h = record { next = h.next; cell = write p.address (s.into x) h.cell }

  -- The memory after a new variable with the value `x`.
  unfoldable pub allocated : A → Heap Cell → Heap Cell
  allocated x h = record { next = suc h.next; cell = write h.next (s.into x) h.cell }

  pub store-stored :
      (p : Ptr A) (x : A) (h : Heap Cell)
      → p.address < h.next
      → store p x h ≡ some (tt, stored p x h)
  unfolding store stored
  store-stored p x h used = ground arith

  pub load-bind :
      {B : Type 0} (p : Ptr A) (f : A → Cmd Cell B) (x : A) (h : Heap Cell)
      → read p h ≡ some x
      → (load p >>= f) h ≡ f x h
  load-bind p f x h e = ap (λ o. and_then (lift o h) f) e

  pub store-bind :
      {B : Type 0} (p : Ptr A) (x : A) (f : Unit {0} → Cmd Cell B) (h : Heap Cell)
      → p.address < h.next
      → (store p x >>= f) h ≡ f tt (stored p x h)
  store-bind p x f h used = ap (λ o. and_then o f) (store-stored p x h used)

  pub read-stored :
      (p : Ptr A) (x : A) (h : Heap Cell) → p.address < h.next → read p (stored p x h) ≡ some x
  unfolding read stored
  read-stored p x h used = ground (arith, s.from-into x)

  pub cell-stored :
      (p : Ptr A) (x : A) (h : Heap Cell) (a : ℕ) → a ≢ p.address → (stored p x h).cell a ≡ h.cell a
  unfolding stored
  cell-stored p x h a other = ground arith

  pub Grows-allocated : (x : A) (h : Heap Cell) → Grows h (allocated x h)
  unfolding allocated
  Grows-allocated x h = record { in_use = omega arith; same = λ a _ to. ground arith }

  pub read-allocated :
      (x : A) (h : Heap Cell) → read (record { address = h.next }) (allocated x h) ≡ some x
  unfolding read allocated
  read-allocated x h = ground (arith, s.from-into x)

  -- The value behind a pointer that may be nil.
  unfoldable pub shown : Option (Ptr A) → Heap Cell → Option (Option A)
  shown none h = some none
  shown (some p) h = behind (read p h)

-- A pointer to a value of which `Q` holds.
pub record Behind {Cell A : Type 0} ⦃s : Storable Cell A⦄ (Q : A → Heap Cell → Type 0)
    (p : Option (Ptr A)) (k : Heap Cell) : Type 0 where
  pub pointer : Ptr A
  pub value : A
  pub points : p ≡ some pointer
  pub reads : read pointer k ≡ some value
  pub shows : Q value k

module _ {Cell A : Type 0} ⦃s : Storable Cell A⦄ (z x : A) {h k : Heap Cell} where
  -- What a new variable holds in the end, when the memory has grown to `k` in between.
  pub Runs-stored :
      {Q : A → Heap Cell → Type 0}
      → Grows (allocated z h) k
      → ((l : Heap Cell) → Keeps (suc h.next) k.next k l → Q x l)
      → Runs h
          (some (some (record { address = h.next }), stored (record { address = h.next }) x k))
          (Behind Q)
  unfolding allocated stored
  Runs-stored {Q} g q =
      let to : Ptr A = record { address = h.next } in
      let used = g.in_use in
      record {
        value = some to;
        after = stored to x k;
        returns = refl;
        grows = record {
          in_use = omega arith;
          same = λ a from below.
              cell-stored to x k a (λ e. omega arith)
              ∙ g.same a from (omega arith)
              ∙ (Grows-allocated z h).same a from below;
        };
        holds = λ l kept. record {
          pointer = to;
          value = x;
          points = refl;
          reads =
              read-Keeps to x kept (omega arith) (omega arith) (read-stored to x k (omega arith));
          shows = q l (record {
            in_use = kept.in_use;
            same = λ a from below.
                kept.same a (omega arith) below ∙ cell-stored to x k a (λ e. omega arith);
          });
        };
      }

module _ {Cell A : Type 0} ⦃s : Storable Cell A⦄ where
  shown-Behind :
      (x : A) (p : Option (Ptr A)) (k : Heap Cell)
      → Behind (λ y _. y ≡ x) p k
      → shown p k ≡ some (some x)
  unfolding shown
  shown-Behind x p k b =
      ap (λ q. shown q k) b.points ∙ ap behind b.reads ∙ ap (λ y. some (some y)) b.shows

  shown-some :
      (p : Ptr A) (v : Option A) (h : Heap Cell)
      → shown (some p) h ≡ some v
      → (x : A) × (read p h ≡ some x) × (v ≡ some x)
  unfolding shown
  shown-some p v h e = behind-some (read p h) v e

  copy_pointer-some :
      (from : Ptr A) (x : A) (h : Heap Cell)
      → read from h ≡ some x
      → copy_pointer (some from) h
        ≡ some (
          some (record { address = h.next }),
          stored (record { address = h.next }) x (allocated s.zero_value h),
        )
  unfolding copy_pointer allocate allocated
  copy_pointer-some from x h e =
      let to : Ptr A = record { address = h.next } in
      let k = allocated s.zero_value h in
      load-bind from _ x k (read-Grows from x (Grows-allocated s.zero_value h) e)
      ∙ store-bind to x _ k (omega arith)

  pub Runs-copy_pointer :
      (p : Option (Ptr A)) (v : Option A) (h : Heap Cell)
      → shown p h ≡ some v
      → Runs h (copy_pointer p h) (λ q k. shown q k ≡ some v)
  unfolding copy_pointer shown
  Runs-copy_pointer none v h e = Runs-pure (λ k. e)
  Runs-copy_pointer (some p) v h e =
      let (x, reads, is) = shown-some p v h e in
      Runs-by (copy_pointer-some p x h reads)
        (Runs-stored s.zero_value x (Grows-refl (allocated s.zero_value h)) (λ _ _. refl))
        (λ q k b. shown-Behind x q k b ∙ ap some (sym is))

  pub shown-stays :
      (p : Option (Ptr A)) (v : Option A) {h k : Heap Cell}
      → shown p h ≡ some v
      → Grows h k
      → shown p k ≡ some v
  unfolding shown
  shown-stays none v e g = e
  shown-stays (some p) v {h} e g =
      let (x, reads, is) = shown-some p v h e in
      ap behind (read-Grows p x g reads) ∙ ap some (sym is)
