-- ===== src/Api/DeepCopy/Runs.antt =====
-- What a command that only adds to the memory leaves: the cells in use as they were, and a result
-- of which something holds as long as the new cells stay as they are.
use mailgun_operator.Base.{ℕ, ◌<◌, ◌≤◌, ◌≡◌, refl, ap, ◌∙◌, Option, some, arith}
use mailgun_operator.Api.DeepCopy.Memory.{Heap, Ptr, Storable, Cmd, and_then, ◌>>=◌, pure, read}

-- `k` has the cells of `h` from `low` up to `high`.
pub record Keeps {Cell : Type 0} (low high : ℕ) (h k : Heap Cell) : Type 0 where
  pub in_use : high ≤ k.next
  pub same : (a : ℕ) → low ≤ a → a < high → k.cell a ≡ h.cell a

-- `k` has every cell of `h` that is in use.
abbrev pub Grows : {Cell : Type 0} → Heap Cell → Heap Cell → Type 0
Grows h k = Keeps 0 h.next h k

-- The command that gives `result` from `h` succeeds, and `Q` holds of its value.
pub record Runs {Cell A : Type 0} (h : Heap Cell) (result : Option (A × Heap Cell))
    (Q : A → Heap Cell → Type 0) : Type 0 where
  pub value : A
  pub after : Heap Cell
  pub returns : result ≡ some (value, after)
  pub grows : Grows h after
  pub holds : (k : Heap Cell) → Keeps h.next after.next after k → Q value k

module _ {Cell : Type 0} where
  pub Grows-refl : (h : Heap Cell) → Grows h h
  Grows-refl h = record { in_use = omega arith; same = λ a _ _. refl }

  pub Keeps-trans :
      {low high : ℕ} {h k l : Heap Cell}
      → Keeps low high h k
      → Keeps low high k l
      → Keeps low high h l
  Keeps-trans f g = record {
    in_use = g.in_use;
    same = λ a from to. g.same a from to ∙ f.same a from to;
  }

  -- A part of the range.
  pub Keeps-narrow :
      {low high : ℕ} {h k : Heap Cell} (low' high' : ℕ)
      → Keeps low high h k
      → low ≤ low'
      → high' ≤ high
      → Keeps low' high' h k
  Keeps-narrow low' high' f up down = record {
    in_use = let in_use = f.in_use in omega arith;
    same = λ a from to. f.same a (omega arith) (omega arith);
  }

  pub Grows-trans : {h k l : Heap Cell} → Grows h k → Grows k l → Grows h l
  Grows-trans {h} f g =
      let in_use = f.in_use in Keeps-trans f (Keeps-narrow 0 h.next g (omega arith) in_use)

module _ {Cell A : Type 0} {h : Heap Cell} where
  pub Runs-pure :
      {x : A} {Q : A → Heap Cell → Type 0} → ((k : Heap Cell) → Q x k) → Runs h (pure x h) Q
  Runs-pure {x} q = record {
    value = x;
    after = h;
    returns = refl;
    grows = Grows-refl h;
    holds = λ k _. q k;
  }

module _ {Cell A : Type 0} {h : Heap Cell} {P Q : A → Heap Cell → Type 0} where
  pub Runs-by :
      {m n : Option (A × Heap Cell)}
      → m ≡ n
      → Runs h n P
      → ((x : A) (k : Heap Cell) → P x k → Q x k)
      → Runs h m Q
  Runs-by e r q = record {
    value = r.value;
    after = r.after;
    returns = e ∙ r.returns;
    grows = r.grows;
    holds = λ k kept. q r.value k (r.holds k kept);
  }

module _ {Cell A B : Type 0} {h : Heap Cell} where
  pub Runs-bind :
      (m : Cmd Cell A) (f : A → Cmd Cell B) {P : A → Heap Cell → Type 0}
      {Q : B → Heap Cell → Type 0}
      → Runs h (m h) P
      → ((x : A) (k : Heap Cell) → Grows h k → Runs k (f x k) (λ y l. P x l → Q y l))
      → Runs h ((m >>= f) h) Q
  Runs-bind m f r s =
      let next = s r.value r.after r.grows in
      let used = r.grows.in_use in
      let used' = next.grows.in_use in
      record {
        value = next.value;
        after = next.after;
        returns = ap (λ o. and_then o f) r.returns ∙ next.returns;
        grows = Grows-trans r.grows next.grows;
        holds = λ k kept.
            next.holds k (Keeps-narrow r.after.next next.after.next kept used (omega arith)) (
              r.holds k (
                Keeps-trans
                  (Keeps-narrow h.next r.after.next next.grows (omega arith) (omega arith))
                  (Keeps-narrow h.next r.after.next kept (omega arith) used')));
      }

module _ {Cell A : Type 0} ⦃s : Storable Cell A⦄ where
  pub read-in_use : (p : Ptr A) (x : A) (h : Heap Cell) → read p h ≡ some x → p.address < h.next
  unfolding read
  read-in_use p x h e = ground arith

  pub read-Keeps :
      (p : Ptr A) (x : A) {low high : ℕ} {h k : Heap Cell}
      → Keeps low high h k
      → low ≤ p.address
      → p.address < high
      → read p h ≡ some x
      → read p k ≡ some x
  unfolding read
  read-Keeps p x {h} {k} g from to e =
      let same = g.same p.address from to in
      let in_use = g.in_use in let used = read-in_use p x h e in ground arith

  pub read-Grows :
      (p : Ptr A) (x : A) {h k : Heap Cell} → Grows h k → read p h ≡ some x → read p k ≡ some x
  read-Grows p x {h} g e = read-Keeps p x g (omega arith) (read-in_use p x h e) e
