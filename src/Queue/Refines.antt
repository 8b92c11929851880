-- ===== src/Queue/Refines.antt =====
-- The ring of cells implements the queue of its values.
use mariobr_os.Base.{
  put, ℕ, ◌≡◌, ◌≢◌, refl, sym, ◌∙◌, subst, true, false, List, [], ◌∷◌, ◌++◌, ◌==◌, some, eq→==,
  ne→==,
}
use mariobr_os.Fifo.{enqueue, dequeue, is_empty_queue}
use mariobr_os.Queue.{Cell, Heap, set_next, set_prev, is_empty_ring, ring_enqueue, ring_dequeue}
use mariobr_os.Queue.Ring.{
  NotIn, Distinct, first, last, Seg, Seg-put, Seg-set_prev, Seg-set_next, Seg-snoc,
}

-- `q` points at a ring of the given cells, oldest first, which hold the given values.
pub record IsRing (h : Heap) (q : ℕ) (cells vs : List ℕ) : Type 0 where
  pub head : q ≡ first cells 0
  pub used : NotIn 0 cells
  pub apart : Distinct cells
  pub linked : Seg h (last 0 cells) cells vs (first cells 0)

NotIn-snoc : (x e : ℕ) (xs : List ℕ) → NotIn x xs → x ≢ e → NotIn x (xs ++ e ∷ [])
NotIn-snoc x e [] o ne = (ne, tt)
NotIn-snoc x e (y ∷ ys) o ne = (o.0, NotIn-snoc x e ys o.1 ne)

Distinct-snoc : (e : ℕ) (xs : List ℕ) → Distinct xs → NotIn e xs → Distinct (xs ++ e ∷ [])
Distinct-snoc e [] d o = (tt, tt)
Distinct-snoc e (y ∷ ys) d o =
    (NotIn-snoc y e ys d.0 (λ p. o.0 (sym p)), Distinct-snoc e ys d.1 o.1)

last-snoc : (a e : ℕ) (xs : List ℕ) → last a (xs ++ e ∷ []) ≡ e
last-snoc a e [] = refl
last-snoc a e (b ∷ bs) = last-snoc b e bs

NotIn-last : (x a : ℕ) (xs : List ℕ) → NotIn x (a ∷ xs) → x ≢ last a xs
NotIn-last x a [] o = o.0
NotIn-last x a (b ∷ bs) o = NotIn-last x b bs o.1

-- An empty ring is an empty queue.
pub is_empty_ring-is_empty_queue :
    (h : Heap) (q : ℕ) (cells vs : List ℕ)
    → IsRing h q cells vs
    → is_empty_ring q ≡ is_empty_queue vs
unfolding is_empty_ring
is_empty_ring-is_empty_queue h q [] [] r = rw r.head refl
is_empty_ring-is_empty_queue h q [] (v ∷ vs) r = absurd r.linked
is_empty_ring-is_empty_queue h q (a ∷ xs) [] r = absurd r.linked
is_empty_ring-is_empty_queue h q (a ∷ xs) (v ∷ vs) r = ne→== q 0 (λ e. r.used.0 (sym e ∙ r.head))

-- The predecessor of the first cell is the last one.
head-prev : (h : Heap) (q a : ℕ) (xs vs : List ℕ) → IsRing h q (a ∷ xs) vs → (h a).prev ≡ last a xs
head-prev h q a xs [] r = absurd r.linked
head-prev h q a xs (v ∷ vs) r = r.linked.1

module _ (h : Heap) (q elt v : ℕ) (here : 0 ≢ elt) where
  ring_enqueue-first :
      (vs : List ℕ)
      → IsRing h q [] vs
      → IsRing (ring_enqueue elt h q v).0 (ring_enqueue elt h q v).1 (elt ∷ []) (enqueue vs v)
  unfolding ring_enqueue
  ring_enqueue-first [] r = rw r.head (record {
    head = refl;
    used = (here, tt);
    apart = (tt, tt);
    linked =
        let e : (elt == elt) ≡ true = eq→== elt elt refl in (rw e refl, rw e refl, rw e refl, tt);
  })
  ring_enqueue-first (w ∷ vs) r = absurd r.linked

  -- The heap after `enqueue` on a ring that is not empty.
  appended : ℕ → ℕ → Heap
  appended a z =
      set_prev (set_next (put h elt (record { value = v; next = a; prev = z })) z elt) a elt

  ring_enqueue-appended :
      (a : ℕ) (xs vs : List ℕ)
      → NotIn elt (a ∷ xs)
      → IsRing h q (a ∷ xs) vs
      → ring_enqueue elt h q v ≡ (appended a (last a xs), a)
  unfolding ring_enqueue appended
  ring_enqueue-appended a xs vs new r =
      let full : (a == 0) ≡ false = ne→== a 0 (λ e. r.used.0 (sym e)) in
      rw (r.head, full, ne→== elt a new.0, head-prev h q a xs vs r) refl

  appended-Seg :
      (a : ℕ) (xs vs : List ℕ)
      → NotIn elt (a ∷ xs)
      → Distinct (a ∷ xs)
      → Seg h (last a xs) (a ∷ xs) vs a
      → Seg (appended a (last a xs)) elt (a ∷ (xs ++ elt ∷ [])) (vs ++ v ∷ []) a
  unfolding appended
  appended-Seg a xs vs new d s =
      let c : Cell = record { value = v; next = a; prev = last a xs } in
      let h1 : Heap = put h elt c in
      let h2 : Heap = set_next h1 (last a xs) elt in
      Seg-snoc (set_prev h2 a elt) elt a xs vs elt v a
        (Seg-set_prev h2 (last a xs) elt a xs vs elt d.0 (
          Seg-set_next h1 (last a xs) a xs vs a elt d
            (Seg-put h (last a xs) (a ∷ xs) vs a elt c new s)))
        (let e : (a == elt) ≡ false = ne→== a elt (λ p. new.0 (sym p)) in
          let z : (last a xs == elt) ≡ false =
            ne→== (last a xs) elt (λ p. NotIn-last elt a xs new (sym p)) in
          let self : (elt == elt) ≡ true = eq→== elt elt refl in
          (rw (e, z, self) refl, rw (e, z, self) refl, rw (e, z, self) refl, tt))

  ring_enqueue-next :
      (a : ℕ) (xs vs : List ℕ)
      → NotIn elt (a ∷ xs)
      → IsRing h q (a ∷ xs) vs
      → IsRing
          (ring_enqueue elt h q v).0
          (ring_enqueue elt h q v).1
          (a ∷ (xs ++ elt ∷ []))
          (enqueue vs v)
  ring_enqueue-next a xs vs new r = rw (ring_enqueue-appended a xs vs new r) (record {
    head = refl;
    used = NotIn-snoc 0 elt (a ∷ xs) r.used here;
    apart = Distinct-snoc elt (a ∷ xs) r.apart new;
    linked =
        subst (λ p. Seg (appended a (last a xs)) p (a ∷ (xs ++ elt ∷ [])) (vs ++ v ∷ []) a)
          (sym (last-snoc a elt xs)) (appended-Seg a xs vs new r.apart r.linked);
  })

-- `enqueue` on the ring of cells adds the value behind the newest one, with a new cell that is
-- neither null nor in the ring.
pub ring_enqueue-IsRing :
    (h : Heap) (q elt v : ℕ) (cells vs : List ℕ)
    → 0 ≢ elt
    → NotIn elt cells
    → IsRing h q cells vs
    → IsRing
        (ring_enqueue elt h q v).0
        (ring_enqueue elt h q v).1
        (cells ++ elt ∷ [])
        (enqueue vs v)
ring_enqueue-IsRing h q elt v [] vs here new r = ring_enqueue-first h q elt v here vs r
ring_enqueue-IsRing h q elt v (a ∷ xs) vs here new r =
    ring_enqueue-next h q elt v here a xs vs new r

-- `dequeue` on a ring of cells that is not empty returns the oldest value, and leaves the ring of
-- the other cells with the other values.
pub ring_dequeue-IsRing :
    (h : Heap) (q a : ℕ) (xs : List ℕ) (v : ℕ) (vs : List ℕ)
    → IsRing h q (a ∷ xs) (v ∷ vs)
    → let t = ring_dequeue h q in (dequeue (v ∷ vs) ≡ some (t.0, vs)) × IsRing t.1 t.2 xs vs
unfolding ring_dequeue
ring_dequeue-IsRing h q a [] v [] r =
    rw (r.head, r.linked.2, r.linked.0, eq→== a a refl)
      (refl, record { head = refl; used = tt; apart = tt; linked = tt })
ring_dequeue-IsRing h q a [] v (w ∷ vs) r = absurd r.linked.3
ring_dequeue-IsRing h q a (b ∷ bs) v vs r =
    let other : (b == a) ≡ false = ne→== b a (λ e. r.apart.0.0 (sym e)) in
    rw (r.head, r.linked.2, r.linked.1, r.linked.0, other)
      (
        refl,
        record {
          head = refl;
          used = r.used.1;
          apart = r.apart.1;
          linked =
              Seg-set_next (set_prev h b (last b bs)) (last b bs) b bs vs a b r.apart.1
                (Seg-set_prev h a (last b bs) b bs vs a r.apart.1.0 r.linked.3);
        },
      )
