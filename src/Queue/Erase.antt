-- ===== src/Queue/Erase.antt =====
-- Taking one entry out of a chain: its neighbours, and the links after the neighbours are joined.
use mathlib.Core.Path.{subst}
use openmcapi_deprecated.Base.{
  ◌≡◌, ◌≢◌, refl, sym, ap, ◌∙◌, ◌⊎◌, inl, inr, true, false, some, List, [], ◌∷◌, arith, ◌==◌,
  Bool-cases, ==→eq, ==→ne, Bool, if◌then◌else◌,
}
use openmcapi_deprecated.Queue.{Ptr, null, qnode, Heap}
use openmcapi_deprecated.Queue.Chain.{
  member, member-ne, head-ne, member-tail, erase_self, first, last_or, erase, Linked, Linked-frame,
  member-last_or,
}

pub member-erase : (a b : Ptr) (xs : List Ptr) → member a xs ≡ false → member a (erase b xs) ≡ false
member-erase a b [] h = refl
member-erase a b (x ∷ xs) h = ground (arith, member-erase a b xs)

-- The entry `item`, behind the head `x`: its predecessor is `p`, its successor `n`.
pub record Between (h : Heap) (x : Ptr) (xs : List Ptr) (item : Ptr) : Type 0 where
  pub p : Ptr
  pub n : Ptr
  pub r : Ptr
  pub s : Ptr
  pub at_item : h item ≡ some (qnode n p)
  pub at_pred : h p ≡ some (qnode item r)
  pub pred_in : member p (x ∷ xs) ≡ true
  pub pred_ne : p ≢ item
  pub ends :
      ((n ≡ null) × (last_or xs x ≡ item) × (last_or (erase item xs) x ≡ p))
      ⊎ ((n ≢ null)
          × (n ≢ item)
          × (n ≢ p)
          × (member n xs ≡ true)
          × (h n ≡ some (qnode s item))
          × (last_or xs x ≢ item)
          × (last_or (erase item xs) x ≡ last_or xs x))

-- The entry stands right behind the head.
Between-here :
    (h : Heap) (prev x item : Ptr) (zs : List Ptr)
    → Linked h prev (x ∷ item ∷ zs)
    → Between h x (item ∷ zs) item
Between-here h prev x item zs l = record {
  p = x;
  n = first zs;
  r = prev;
  s = first (tail zs);
  at_item = l.3.0;
  at_pred = l.0;
  pred_in = ground arith;
  pred_ne = (head-ne x item zs l.2).0;
  ends = ends zs l;
}
  where
    tail : List Ptr → List Ptr
    tail [] = []
    tail (y ∷ ys) = ys

    ends :
        (zs : List Ptr)
        → Linked h prev (x ∷ item ∷ zs)
        → ((first zs ≡ null) × (last_or zs item ≡ item) × (last_or (erase item (item ∷ zs)) x ≡ x))
          ⊎ ((first zs ≢ null)
              × (first zs ≢ item)
              × (first zs ≢ x)
              × (member (first zs) (item ∷ zs) ≡ true)
              × (h (first zs) ≡ some (qnode (first (tail zs)) item))
              × (last_or zs item ≢ item)
              × (last_or (erase item (item ∷ zs)) x ≡ last_or zs item))
    ends [] l = inl (refl, refl, rw erase_self)
    ends (z ∷ zs) l = inr (
      l.3.3.1,
      (head-ne item z zs l.3.2).1,
      (head-ne x z zs (member-tail x item (z ∷ zs) l.2)).1,
      ground arith,
      l.3.3.0,
      member-ne (last_or zs z) item (z ∷ zs) (member-last_or z zs) l.3.2,
      rw erase_self,
    )

Between-later :
    (h : Heap) (prev x y item : Ptr) (ys : List Ptr)
    → Linked h prev (x ∷ y ∷ ys)
    → (y == item) ≡ false
    → Between h y ys item
    → Between h x (y ∷ ys) item
Between-later h prev x y item ys l e b = record {
  p = b.p;
  n = b.n;
  r = b.r;
  s = b.s;
  at_item = b.at_item;
  at_pred = b.at_pred;
  pred_in = ground (arith, b.pred_in);
  pred_ne = b.pred_ne;
  ends = elim b.ends [
    | inl (at_end, last, before) ↦ inl (at_end, last, rw e before)
    | inr (a₀, a₁, a₂, a₃, a₄, a₅, a₆) ↦ inr (a₀, a₁, a₂, ground arith, a₄, a₅, rw e a₆)
  ];
}

pub Between-of_member :
    (h : Heap) (prev x item : Ptr) (xs : List Ptr)
    → Linked h prev (x ∷ xs)
    → member item xs ≡ true
    → Between h x xs item
Between-of_member h prev x item [] l i = cc
Between-of_member h prev x item (y ∷ ys) l i = elim (Bool-cases (y == item)) [
  | inl e ↦ subst (λ t. Between h x (y ∷ ys) t) (==→eq y item e) (Between-here h prev x y ys l)
  | inr e ↦
      Between-later h prev x y item ys l e (Between-of_member h x y item ys l.3 (ground arith))
]

-- The chain after the predecessor's `flink` and the successor's `blink` are joined.
pub record Joined (h g : Heap) (item p n r s : Ptr) (xs : List Ptr) : Type 0 where
  pub at_item : h item ≡ some (qnode n p)
  pub at_pred : h p ≡ some (qnode item r)
  pub new_pred : g p ≡ some (qnode n r)
  pub at_succ : (n ≡ null) ⊎ ((h n ≡ some (qnode s item)) × (g n ≡ some (qnode s p)))
  pub same : (a : Ptr) → member a xs ≡ true → a ≢ item → a ≢ p → a ≢ n → g a ≡ h a

-- The first node behind the gap.
behind_gap :
    (h g : Heap) (item p n r s x : Ptr) (zs : List Ptr)
    → Linked h item zs
    → n ≡ first zs
    → p ≡ x
    → member x zs ≡ false
    → member item zs ≡ false
    → Joined h g item p n r s (x ∷ item ∷ zs)
    → Linked g x zs
behind_gap h g item p n r s x [] l en ep out out' j = tt
behind_gap h g item p n r s x (z ∷ zs) l en ep out out' j = (
  at_z j.at_succ,
  l.1,
  l.2,
  Linked-frame z zs l.3 (λ a i.
      j.same a (ground arith) (member-ne a item zs i (member-tail item z zs out'))
        (λ e. member-ne a x zs i (member-tail x z zs out) (e ∙ ep))
        (λ e. member-ne a z zs i l.2 (e ∙ en))),
)
  where
    at_z :
        (n ≡ null) ⊎ ((h n ≡ some (qnode s item)) × (g n ≡ some (qnode s p)))
        → g z ≡ some (qnode (first zs) x)
    at_z (inl e) = absurd (l.1 (sym en ∙ e))
    at_z (inr (before, after)) = let here = l.0 in cc

erase_here :
    (h g : Heap) (item p n r s prev x : Ptr) (zs : List Ptr)
    → Linked h prev (x ∷ item ∷ zs)
    → Joined h g item p n r s (x ∷ item ∷ zs)
    → Linked g prev (x ∷ zs)
erase_here h g item p n r s prev x zs l j =
    let links : (n ≡ first zs) × (p ≡ x) = same_links l.3.0 j.at_item in
    let out = member-tail x item zs l.2 in
    (
      head l.0 j.at_pred j.new_pred links.0 links.1,
      l.1,
      out,
      behind_gap h g item p n r s x zs l.3.3 links.0 links.1 out l.3.2 j,
    )
  where
    same_links :
        h item ≡ some (qnode (first zs) x) → h item ≡ some (qnode n p) → (n ≡ first zs) × (p ≡ x)
    same_links a b = (cc, cc)

    head :
        h x ≡ some (qnode item prev)
        → h p ≡ some (qnode item r)
        → g p ≡ some (qnode n r)
        → n ≡ first zs
        → p ≡ x
        → g x ≡ some (qnode (first zs) prev)
    head a b c en ep = cc

-- The head of the chain is none of the three nodes that matter.
head_apart :
    (h g : Heap) (item p n r s prev x y : Ptr) (ys : List Ptr)
    → Linked h prev (x ∷ y ∷ ys)
    → y ≢ item
    → prev ≢ item
    → Joined h g item p n r s (x ∷ y ∷ ys)
    → (x ≢ p) × (x ≢ n)
head_apart h g item p n r s prev x y ys l ne d j =
    let at_x = l.0 in
    let at_p = j.at_pred in (λ e. ne (let at_x' = ap h (sym e) ∙ at_x in cc), not_n j.at_succ at_x)
  where
    not_n :
        (n ≡ null) ⊎ ((h n ≡ some (qnode s item)) × (g n ≡ some (qnode s p)))
        → h x ≡ some (qnode y prev)
        → x ≢ n
    not_n (inl z) at_x e = l.1 (e ∙ z)
    not_n (inr (before, after)) at_x e = d (let at_x' = ap h (sym e) ∙ at_x in cc)

pub Linked-erase :
    (h g : Heap) (item p n r s prev x : Ptr) (xs : List Ptr)
    → Linked h prev (x ∷ xs)
    → member item xs ≡ true
    → prev ≢ item
    → Joined h g item p n r s (x ∷ xs)
    → Linked g prev (x ∷ erase item xs)
Linked-erase h g item p n r s prev x [] l i d j = cc
Linked-erase h g item p n r s prev x (y ∷ ys) l i d j = elim (Bool-cases (y == item)) [
  | inl e ↦
      subst (λ t. Linked g prev (x ∷ t))
        (sym (ap (λ (b : Bool). if b then ys else y ∷ erase item ys) e)) (here (==→eq y item e))
  | inr e ↦
      let ne = ==→ne y item e in
      let apart = head_apart h g item p n r s prev x y ys l ne d j in
      let in_xs = member-ne item x (y ∷ ys) i l.2 in
      rw e (
        j.same x (ground arith) (λ q. in_xs (sym q)) apart.0 apart.1 ∙ l.0,
        l.1,
        ground (arith, member-erase x item ys),
        Linked-erase h g item p n r s x y ys l.3 (ground arith) (λ q. in_xs (sym q))
            (record {
              at_item = j.at_item;
              at_pred = j.at_pred;
              new_pred = j.new_pred;
              at_succ = j.at_succ;
              same = λ a k. j.same a (ground arith);
            }),
      )
]
  where
    here : y ≡ item → Linked g prev (x ∷ ys)
    here e =
        erase_here h g item p n r s prev x ys (subst (λ t. Linked h prev (x ∷ t ∷ ys)) e l)
          (subst (λ t. Joined h g item p n r s (x ∷ t ∷ ys)) e j)
