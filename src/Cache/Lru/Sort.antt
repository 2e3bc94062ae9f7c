-- ===== src/Cache/Lru/Sort.antt =====
-- The sort by access time keeps every slot, its total and its distinctness, and orders by time.
use infernix.Prelude.{
  ℕ, ◌+◌, ◌≤◌, ◌≡◌, ◌≢◌, sym, List, [], ◌∷◌, arith, leb, sum_of, length, All, All-weaken,
  Bool-cases, inl, inr,
}
use infernix.Cache.Disk.{Slot}
use infernix.Cache.Lru.{atime_of, insert_slot, sort_by_atime}

-- No name stands twice among the slots.
abbrev pub Apart : List Slot → Type 0
Apart [] = Unit
Apart (s ∷ ss) = All (λ t. t.0 ≢ s.0) ss × Apart ss

-- Oldest access first.
abbrev pub Ascending : List Slot → Type 0
Ascending [] = Unit
Ascending (s ∷ ss) = All (λ t. atime_of s ≤ atime_of t) ss × Ascending ss

pub All-insert_slot :
    (P : Slot → Type 0) (s : Slot) (ss : List Slot) → P s → All P ss → All P (insert_slot s ss)
unfolding insert_slot
All-insert_slot P s [] p h = (p, tt)
All-insert_slot P s (t ∷ ts) p h = elim (Bool-cases (leb (atime_of s) (atime_of t))) [
  | inl e ↦ rw e (p, h)
  | inr e ↦ rw e (h.0, All-insert_slot P s ts p h.1)
]

pub All-sort : (P : Slot → Type 0) (ss : List Slot) → All P ss → All P (sort_by_atime ss)
unfolding sort_by_atime
All-sort P [] h = tt
All-sort P (s ∷ ss) h = All-insert_slot P s (sort_by_atime ss) h.0 (All-sort P ss h.1)

insert_slot-Apart :
    (s : Slot) (ss : List Slot) → All (λ t. t.0 ≢ s.0) ss → Apart ss → Apart (insert_slot s ss)
unfolding insert_slot
insert_slot-Apart s [] h a = (tt, tt)
insert_slot-Apart s (t ∷ ts) h a = elim (Bool-cases (leb (atime_of s) (atime_of t))) [
  | inl e ↦ rw e (h, a)
  | inr e ↦
      rw e (
        All-insert_slot (λ u. u.0 ≢ t.0) s ts (λ p. h.0 (sym p)) a.0,
        insert_slot-Apart s ts h.1 a.1,
      )
]

pub sort-Apart : (ss : List Slot) → Apart ss → Apart (sort_by_atime ss)
unfolding sort_by_atime
sort-Apart [] a = tt
sort-Apart (s ∷ ss) a =
    insert_slot-Apart s (sort_by_atime ss) (All-sort (λ t. t.0 ≢ s.0) ss a.0) (sort-Apart ss a.1)

insert_slot-Ascending : (s : Slot) (ss : List Slot) → Ascending ss → Ascending (insert_slot s ss)
unfolding insert_slot
insert_slot-Ascending s [] a = (tt, tt)
insert_slot-Ascending s (t ∷ ts) a = elim (Bool-cases (leb (atime_of s) (atime_of t))) [
  | inl e ↦
      let le : atime_of s ≤ atime_of t = ground arith in
      rw e (
        (
          le,
          All-weaken (λ u. atime_of t ≤ atime_of u) (λ u. atime_of s ≤ atime_of u) ts
              (λ u h. omega arith) a.0,
        ),
        a,
      )
  | inr e ↦ rw e (
    All-insert_slot (λ u. atime_of t ≤ atime_of u) s ts (ground arith) a.0,
    insert_slot-Ascending s ts a.1,
  )
]

pub sort-Ascending : (ss : List Slot) → Ascending (sort_by_atime ss)
unfolding sort_by_atime
sort-Ascending [] = tt
sort-Ascending (s ∷ ss) = insert_slot-Ascending s (sort_by_atime ss) (sort-Ascending ss)

sum-insert_slot :
    (f : Slot → ℕ) (s : Slot) (ss : List Slot) → sum_of f (insert_slot s ss) ≡ f s + sum_of f ss
unfolding insert_slot
sum-insert_slot f s [] = omega arith
sum-insert_slot f s (t ∷ ts) = ground (arith, sum-insert_slot f s ts)

pub sum-sort : (f : Slot → ℕ) (ss : List Slot) → sum_of f (sort_by_atime ss) ≡ sum_of f ss
unfolding sort_by_atime
sum-sort f [] = omega arith
sum-sort f (s ∷ ss) = omega (arith, sum-insert_slot f s (sort_by_atime ss), sum-sort f ss)

length-insert_slot : (s : Slot) (ss : List Slot) → length (insert_slot s ss) ≡ length ss + 1
unfolding insert_slot
length-insert_slot s [] = omega arith
length-insert_slot s (t ∷ ts) = ground (arith, length-insert_slot s ts)

pub length-sort : (ss : List Slot) → length (sort_by_atime ss) ≡ length ss
unfolding sort_by_atime
length-sort [] = omega arith
length-sort (s ∷ ss) = omega (arith, length-insert_slot s (sort_by_atime ss), length-sort ss)
