-- ===== src/Api/DeepCopy/Object/Independence.antt =====
-- A copy and its original have no cell in common that either stands on.
use mailgun_operator.Base.{
  ℕ, ◌≡◌, ◌<◌, ◌≤◌, refl, ◌∙◌, Bool, true, false, not, Option, none, some, List, [], ◌∷◌, arith,
  ltb,
}
use mailgun_operator.Base.Lists.{all}
use mailgun_operator.Api.DeepCopy.Memory.{Heap, Ptr, Storable, Cmd, ◌>>=◌, pure, write}
use mailgun_operator.Api.DeepCopy.Runs.{Grows, Runs, Runs-bind, Runs-pure}
use mailgun_operator.Api.DeepCopy.Copies.{deep_copy_by}
use mailgun_operator.Api.DeepCopy.Copies.Elements.{IsDeepCopy}
use mailgun_operator.Api.DeepCopy.Copies.Deep.{ShowsPtr, ShowsPtr-stays, Runs-deep_copy_by}
use mailgun_operator.Api.DeepCopy.Structs.{Library}
use mailgun_operator.Api.DeepCopy.Storage.{
  Cell, Calls, domain_storable, domain_list_storable, route_storable, route_list_storable,
}
use mailgun_operator.Api.DeepCopy.Views.{Views, AreDeep}
use mailgun_operator.Api.DeepCopy.Domain.{domain_deep_copy, domain_list_deep_copy}
use mailgun_operator.Api.DeepCopy.Domain.Whole as Domains
use mailgun_operator.Api.DeepCopy.Route.{route_deep_copy, route_list_deep_copy}
use mailgun_operator.Api.DeepCopy.Route.Whole as Routes
use mailgun_operator.Api.DeepCopy.Object.{
  Object, unless_nil, domain_object, domain_list_object, route_object, route_list_object,
  domain_deep_copy_object, domain_list_deep_copy_object, route_deep_copy_object,
  route_list_deep_copy_object, deep_copy_object,
}
use mailgun_operator.Api.DeepCopy.Object.Shows.{
  Value, is_nil, ShowsObject, ShowsCopy, domain_value, domain_list_value, route_value,
  route_list_value, shows_domain, shows_domain_list, shows_route, shows_route_list,
}

module _ {Cell : Type 0} where
  -- The memory after writes to some addresses.
  unfoldable pub write_all : List (ℕ × Cell) → Heap Cell → Heap Cell
  write_all [] h = h
  write_all ((a, c) ∷ writes) h =
      let k = write_all writes h in record { next = k.next; cell = write a c k.cell }

  -- Whether all the writes are to addresses below `n`, or none of them is.
  unfoldable pub are_below : ℕ → List (ℕ × Cell) → Bool
  are_below n writes = all (λ w. ltb w.0 n) writes

  unfoldable pub are_from : ℕ → List (ℕ × Cell) → Bool
  are_from n writes = all (λ w. not (ltb w.0 n)) writes

  next-write_all : (writes : List (ℕ × Cell)) (h : Heap Cell) → (write_all writes h).next ≡ h.next
  unfolding write_all
  next-write_all [] h = refl
  next-write_all (_ ∷ writes) h = next-write_all writes h

  below-same :
      (n : ℕ) (writes : List (ℕ × Cell)) (h : Heap Cell) (a : ℕ)
      → are_below n writes ≡ true
      → n ≤ a
      → (write_all writes h).cell a ≡ h.cell a
  unfolding write_all are_below all
  below-same n [] h a old from = refl
  below-same n ((b, c) ∷ writes) h a old from = ground (arith, below-same n writes h a)

  from-same :
      (n : ℕ) (writes : List (ℕ × Cell)) (h : Heap Cell) (a : ℕ)
      → are_from n writes ≡ true
      → a < n
      → (write_all writes h).cell a ≡ h.cell a
  unfolding write_all are_from all
  from-same n [] h a new below = refl
  from-same n ((b, c) ∷ writes) h a new below = ground (arith, from-same n writes h a)

module _ {L : Library} (views : Views L) {A V : Type 0} ⦃s : Storable (Cell L) A⦄
    {Shows : A → V → Heap (Cell L) → Type 0} {deep_copy_into : A → Cmd (Cell L) A}
    (law : IsDeepCopy Shows deep_copy_into) (object : Option (Ptr A) → Object L)
    (value : Option V → Value views) (nil : is_nil views (value none) ≡ true)
    (not_nil : (v : V) → is_nil views (value (some v)) ≡ false)
    (shows_object : (p : Option (Ptr A)) (v : Option V) (k : Heap (Cell L))
      → ShowsPtr Shows p v k
      → ShowsObject views (object p) (value v) k) where
  copy_shown :
      (p : Option (Ptr A)) (v : Option V) (k : Heap (Cell L))
      → ShowsPtr Shows p v k
      → ShowsCopy views (unless_nil object p) (value v) k
  unfolding ShowsPtr ShowsCopy unless_nil
  copy_shown none none k shows = nil
  copy_shown (some p) (some v) k shows = (not_nil v, shows_object (some p) (some v) k shows)
  copy_shown none (some _) k shows = elim shows [ ]
  copy_shown (some _) none k shows = elim shows [ ]

  pointer_object_copied :
      (p : Option (Ptr A)) (v : Option V) (h : Heap (Cell L))
      → ShowsPtr Shows p v h
      → Runs h
          ((deep_copy_by deep_copy_into p >>= λ c. pure (unless_nil object c)) h)
          (λ c k. ShowsCopy views c (value v) k)
  pointer_object_copied p v h shows =
      Runs-bind (deep_copy_by deep_copy_into p) (λ c. pure (unless_nil object c))
        (Runs-deep_copy_by law p v h shows) (λ q k g. Runs-pure (copy_shown q v))

module _ {L : Library} (calls : Calls L) (views : Views L) (deep : AreDeep calls views) where
  object_copied :
      (o : Object L) (v : Value views) (h : Heap (Cell L))
      → ShowsObject views o v h
      → Runs h (deep_copy_object calls o h) (λ c k. ShowsCopy views c v k)
  unfolding deep_copy_object domain_deep_copy_object domain_list_deep_copy_object
      route_deep_copy_object route_list_deep_copy_object domain_deep_copy domain_list_deep_copy
      route_deep_copy route_list_deep_copy is_nil
  object_copied _ _ h (shows_domain {p} {v} s) =
      pointer_object_copied views (Domains.ShowsDomain-IsDeepCopy calls views deep) domain_object
        domain_value refl (λ _. refl) (λ _ _ _ t. shows_domain t) p v h s
  object_copied _ _ h (shows_domain_list {p} {v} s) =
      pointer_object_copied views (Domains.ShowsDomainList-IsDeepCopy calls views deep)
        domain_list_object domain_list_value refl (λ _. refl) (λ _ _ _ t. shows_domain_list t) p v h
        s
  object_copied _ _ h (shows_route {p} {v} s) =
      pointer_object_copied views (Routes.ShowsRoute-IsDeepCopy calls views deep) route_object
        route_value refl (λ _. refl) (λ _ _ _ t. shows_route t) p v h s
  object_copied _ _ h (shows_route_list {p} {v} s) =
      pointer_object_copied views (Routes.ShowsRouteList-IsDeepCopy calls views deep)
        route_list_object route_list_value refl (λ _. refl) (λ _ _ _ t. shows_route_list t) p v h s

  ShowsObject-stays :
      (o : Object L) (v : Value views) (h k : Heap (Cell L))
      → ShowsObject views o v h
      → Grows h k
      → ShowsObject views o v k
  ShowsObject-stays _ _ _ k (shows_domain {p} {v} s) g =
      shows_domain (ShowsPtr-stays (Domains.ShowsDomain-IsDeepCopy calls views deep) p v s g)
  ShowsObject-stays _ _ _ k (shows_domain_list {p} {v} s) g =
      shows_domain_list
        (ShowsPtr-stays (Domains.ShowsDomainList-IsDeepCopy calls views deep) p v s g)
  ShowsObject-stays _ _ _ k (shows_route {p} {v} s) g =
      shows_route (ShowsPtr-stays (Routes.ShowsRoute-IsDeepCopy calls views deep) p v s g)
  ShowsObject-stays _ _ _ k (shows_route_list {p} {v} s) g =
      shows_route_list (ShowsPtr-stays (Routes.ShowsRouteList-IsDeepCopy calls views deep) p v s g)

  -- Let an object of any of the four kinds stand for a value. `DeepCopyObject` succeeds. Whatever is
  -- then written to cells that were in use before it, the copy stands for the same value, or is the
  -- nil interface if the object has a nil pointer; and whatever is written to other cells than
  -- those, the original stands for that value still. The copies of `metav1.ObjectMeta`,
  -- `metav1.ListMeta`, `metav1.Time` and `endpoint.Endpoint` are assumed to be deep.
  pub deep_copy_object-independent :
      (o : Object L) (v : Value views) (h : Heap (Cell L))
      → (old new : List (ℕ × Cell L)) → ShowsObject views o v h
      → are_below h.next old ≡ true
      → are_from h.next new ≡ true
      → (c : Option (Object L)) × (k : Heap (Cell L)) × (deep_copy_object calls o h ≡ some (c, k))
        × ShowsCopy views c v (write_all old k)
        × ShowsObject views o v (write_all new k)
  deep_copy_object-independent o v h old new shows is_old is_new =
      let r = object_copied o v h shows in
      let k = r.after in
      let used = r.grows.in_use in
      (
        r.value,
        k,
        r.returns,
        r.holds (write_all old k) (record {
          in_use = omega (arith, next-write_all old k);
          same = λ a from _. below-same h.next old k a is_old from;
        }),
        ShowsObject-stays o v h (write_all new k) shows (record {
          in_use = omega (arith, next-write_all new k);
          same = λ a from below. from-same h.next new k a is_new below ∙ r.grows.same a from below;
        }),
      )
