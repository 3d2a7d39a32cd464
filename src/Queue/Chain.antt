-- ===== src/Queue/Chain.antt =====
-- What a queue in the heap stands for: the list of its entries, oldest first. Each entry's links
-- lead to its neighbours, and the header's to the two ends; the `blink` of an empty queue's header
-- is whatever was left there.
use openmcapi_deprecated.Base.{
  ◌≡◌, ◌≢◌, refl, ap, Bool, true, false, ◌||◌, some, List, [], ◌∷◌, ◌++◌, arith, ◌==◌,
  if◌then◌else◌, Bool-cases, inl, inr,
}
use openmcapi_deprecated.Queue.{Ptr, null, qnode, Heap}

abbrev pub member : Ptr → List Ptr → Bool
member a [] = false
member a (x ∷ xs) = (a == x) || member a xs

abbrev pub first : List Ptr → Ptr
first [] = null
first (x ∷ xs) = x

abbrev pub last_or : List Ptr → Ptr → Ptr
last_or [] d = d
last_or (x ∷ xs) d = last_or xs x

-- The list without the first occurrence of an entry.
abbrev pub erase : Ptr → List Ptr → List Ptr
erase a [] = []
erase a (x ∷ xs) = if x == a then xs else x ∷ erase a xs

abbrev pub Linked : Heap → Ptr → List Ptr → Type 0
Linked h prev [] = Unit
Linked h prev (x ∷ xs) =
    (h x ≡ some (qnode (first xs) prev)) × (x ≢ null) × (member x xs ≡ false) × Linked h x xs

pub record IsQueue (h : Heap) (hdr : Ptr) (xs : List Ptr) : Type 0 where
  pub back : Ptr
  pub header : h hdr ≡ some (qnode (first xs) back)
  pub at_end : back ≡ last_or xs back
  pub entries : Linked h null xs
  pub apart : member hdr xs ≡ false
  pub real : hdr ≢ null

pub Linked-frame :
    {h g : Heap} (prev : Ptr) (xs : List Ptr)
    → Linked h prev xs
    → ((a : Ptr) → member a xs ≡ true → g a ≡ h a)
    → Linked g prev xs
Linked-frame prev [] l same = tt
Linked-frame prev (x ∷ xs) l same =
    (ground (arith, same x), l.1, l.2, Linked-frame x xs l.3 (λ a i. same a (ground arith)))

-- What is in a list differs from what is not.
pub member-ne : (a b : Ptr) (xs : List Ptr) → member a xs ≡ true → member b xs ≡ false → a ≢ b
member-ne a b xs i o e = let same = ap (λ t. member t xs) e in cc

pub head-ne : (a x : Ptr) (xs : List Ptr) → member a (x ∷ xs) ≡ false → (a ≢ x) × (x ≢ a)
head-ne a x xs h = (ground arith, ground arith)

pub member-tail : (a x : Ptr) (xs : List Ptr) → member a (x ∷ xs) ≡ false → member a xs ≡ false
member-tail a x xs h = ground arith

pub erase_self : (a : Ptr) (xs : List Ptr) → erase a (a ∷ xs) ≡ xs
erase_self a xs = ground arith

pub Linked-ne_null :
    (h : Heap) (prev : Ptr) (xs : List Ptr) (a : Ptr)
    → Linked h prev xs
    → member a xs ≡ true
    → a ≢ null
Linked-ne_null h prev [] a l i = cc
Linked-ne_null h prev (x ∷ xs) a l i = elim (Bool-cases (a == x)) [
  | inl e ↦ ground arith
  | inr e ↦ Linked-ne_null h x xs a l.3 (ground arith)
]

pub member-last_or : (x : Ptr) (xs : List Ptr) → member (last_or xs x) (x ∷ xs) ≡ true
member-last_or x [] = ground arith
member-last_or x (y ∷ ys) = ground (arith, member-last_or y ys)

-- The last entry has no successor.
pub last-flink :
    (h : Heap) (prev x : Ptr) (xs : List Ptr)
    → Linked h prev (x ∷ xs)
    → (b : Ptr) × (h (last_or xs x) ≡ some (qnode null b))
last-flink h prev x [] l = (prev, l.0)
last-flink h prev x (y ∷ ys) l = last-flink h x y ys l.3

pub member-append :
    (a : Ptr) (xs ys : List Ptr) → member a (xs ++ ys) ≡ (member a xs || member a ys)
member-append a [] ys = refl
member-append a (x ∷ xs) ys = ground (arith, member-append a xs ys)

pub last_or-snoc : (item d : Ptr) (xs : List Ptr) → last_or (xs ++ item ∷ []) d ≡ item
last_or-snoc item d [] = refl
last_or-snoc item d (x ∷ xs) = last_or-snoc item x xs

-- Linking a new entry behind the last one.
pub Linked-snoc :
    {h g : Heap} (prev item x b : Ptr) (xs : List Ptr)
    → Linked h prev (x ∷ xs)
    → item ≢ null
    → member item (x ∷ xs) ≡ false
    → h (last_or xs x) ≡ some (qnode null b)
    → g (last_or xs x) ≡ some (qnode item b)
    → g item ≡ some (qnode null (last_or xs x))
    → ((a : Ptr) → member a (x ∷ xs) ≡ true → a ≢ last_or xs x → g a ≡ h a)
    → Linked g prev (x ∷ xs ++ item ∷ [])
Linked-snoc prev item x b [] l ne out before after new same =
    (ground arith, l.1, ground arith, (new, ne, refl, tt))
Linked-snoc prev item x b (y ∷ ys) l ne out before after new same =
    let fresh : x ≢ last_or ys y = ground (arith, member-last_or y ys) in
    (
      ground (arith, same x),
      l.1,
      ground (arith, member-append x ys (item ∷ [])),
      Linked-snoc x item y b ys l.3 ne (ground arith) before after new
          (λ a i d. same a (ground arith) d),
    )
