-- ===== src/Queue.antt =====
-- libmcapi/mcapi/queue.c: the intrusive doubly linked queues of buffers and requests. A structure
-- that starts with the two links is a `QNode` at an address; a queue header is one too, its `flink`
-- the first entry and its `blink` the last. Address 0 is `MCAPI_NULL`. An access through a null or
-- dangling pointer is a fault, `none`.
pub mod Chain
pub mod Dequeue
pub mod Enqueue
pub mod Erase
pub mod Remove
pub mod Unlink
mod Tests
use openmcapi_deprecated.Base.{
  ℕ, zero, suc, Bool, true, false, Option, none, some, ◌==◌, if◌then◌else◌,
}

abbrev pub Ptr : Type 0
Ptr = ℕ

abbrev pub null : Ptr
null = 0

-- `struct MCAPI_QNode_Struct`
pub record QNode : Type 0 where
  pub flink : Ptr
  pub blink : Ptr

abbrev pub qnode : Ptr → Ptr → QNode
qnode f b = record { flink = f; blink = b }

abbrev pub Heap : Type 0
Heap = Ptr → Option QNode

abbrev pub write : Heap → Ptr → QNode → Heap
write h p n a = if a == p then some n else h a

abbrev pub Cmd : Type 0 → Type 0
Cmd A = Heap → Option (A × Heap)

abbrev pub pure : {A : Type 0} → A → Cmd A
pure a h = some (a, h)

infixl 5 ◌>>=◌ ◌>>◌
abbrev pub ◌>>=◌ : {A B : Type 0} → Cmd A → (A → Cmd B) → Cmd B
◌>>=◌ m f h = elim (m h) [ none ↦ none | some (a, g) ↦ f a g ]

abbrev pub ◌>>◌ : {B : Type 0} → Cmd (Unit {0}) → Cmd B → Cmd B
m >> k = m >>= λ _. k

-- `*p`
abbrev pub load : Ptr → Cmd QNode
load p h = elim (p == null) [
  | true ↦ none
  | false ↦ elim (h p) [ none ↦ none | some n ↦ some (n, h) ]
]

abbrev pub store : Ptr → QNode → Cmd (Unit {0})
store p n h = some (tt, write h p n)

-- `p->flink = v`
abbrev pub set_flink : Ptr → Ptr → Cmd (Unit {0})
set_flink p v = do n ← load p; store p (record n { flink = v })

-- `p->blink = v`
abbrev pub set_blink : Ptr → Ptr → Cmd (Unit {0})
set_blink p v = do n ← load p; store p (record n { blink = v })

-- `if (p) m;`
abbrev pub unless_null : Ptr → Cmd (Unit {0}) → Cmd (Unit {0})
unless_null p m h = if p == null then some (tt, h) else m h

-- `if (b) m else k`, between commands
abbrev pub branch : {A : Type 0} → Bool → Cmd A → Cmd A → Cmd A
branch b m k h = if b then m h else k h

-- `mcapi_enqueue`
pub enqueue : Ptr → Ptr → Cmd (Unit {0})
enqueue hdr item = do
  set_flink item null
  q ← load hdr
  branch (q.flink == null) (do set_blink hdr item; set_flink hdr item; set_blink item null)
      do set_flink q.blink item; r ← load hdr; set_blink item r.blink; set_blink hdr item

-- `mcapi_dequeue`
pub dequeue : Ptr → Cmd Ptr
dequeue hdr = do
  q ← load hdr
  branch (q.flink == null) (pure null) do
    e ← load q.flink
    set_flink hdr e.flink
    r ← load hdr
    unless_null r.flink (set_blink r.flink null)
    set_blink q.flink null
    set_flink q.flink null
    pure q.flink

-- The search of `mcapi_remove`, on fuel: the entry if it is found, else null.
pub find_entry : ℕ → Ptr → Ptr → Cmd Ptr
find_entry zero item ent = λ _. none
find_entry (suc f) item ent =
    branch (ent == null) (pure null)
      (branch (ent == item) (pure ent) (load ent >>= λ n. find_entry f item n.flink))

-- The unlinking part of `mcapi_remove`, once the entry is found: the oldest entry, the newest, or one
-- between two others.
pub unlink : Ptr → Ptr → Cmd (Unit {0})
unlink hdr item = do
  q ← load hdr
  branch (q.flink == item) (do _ ← dequeue hdr; pure tt)
      (branch (q.blink == item)
        (do i ← load item; set_blink hdr i.blink; r ← load hdr; set_flink r.blink null)
        (do i ← load item; set_flink i.blink i.flink; j ← load item; set_blink j.flink j.blink))

-- `mcapi_remove`
pub remove : ℕ → Ptr → Ptr → Cmd Ptr
remove fuel hdr item = do
  q ← load hdr
  ent ← find_entry fuel item q.flink
  branch (ent == null) (pure null) (do unlink hdr item; pure ent)
