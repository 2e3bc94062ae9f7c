-- ===== src/Cache/Lru/Member.antt =====
-- Membership in a list of slots, through append and through the sort.
use infernix.Prelude.{
  ◌≤◌, ◌≢◌, inl, inr, refl, sym, subst, List, [], ◌∷◌, ◌++◌, leb, Bool-cases, All, In, All-In,
  In-append_right,
}
use infernix.Cache.Disk.{Slot}
use infernix.Cache.Lru.{atime_of, insert_slot, sort_by_atime}
use infernix.Cache.Lru.Sort.{Apart, Ascending}

pub All-append_left : (P : Slot → Type 0) (xs ys : List Slot) → All P (xs ++ ys) → All P xs
All-append_left P [] ys h = tt
All-append_left P (x ∷ xs) ys h = (h.0, All-append_left P xs ys h.1)

pub Apart-append_left : (xs ys : List Slot) → Apart (xs ++ ys) → Apart xs
Apart-append_left [] ys h = tt
Apart-append_left (x ∷ xs) ys h =
    (All-append_left (λ t. t.0 ≢ x.0) xs ys h.0, Apart-append_left xs ys h.1)

In-insert_slot_self : (s : Slot) (ss : List Slot) → In s (insert_slot s ss)
unfolding insert_slot
In-insert_slot_self s [] = inl refl
In-insert_slot_self s (t ∷ ts) = elim (Bool-cases (leb (atime_of s) (atime_of t))) [
  | inl e ↦ rw (e, In) (inl refl)
  | inr e ↦ rw (e, In) (inr (In-insert_slot_self s ts))
]

In-insert_slot : (u s : Slot) (ss : List Slot) → In u ss → In u (insert_slot s ss)
unfolding insert_slot
In-insert_slot u s [] m = absurd m
In-insert_slot u s (t ∷ ts) m = elim (Bool-cases (leb (atime_of s) (atime_of t))) [
  | inl e ↦ rw (e, In) (inr m)
  | inr e ↦ rw (e, In) (elim m [ inl p ↦ inl p | inr n ↦ inr (In-insert_slot u s ts n) ])
]

pub In-sort : (u : Slot) (ss : List Slot) → In u ss → In u (sort_by_atime ss)
unfolding sort_by_atime
In-sort u [] m = m
In-sort u (s ∷ ss) (inl e) =
    subst (λ (w : Slot). In w (insert_slot s (sort_by_atime ss))) (sym e)
      (In-insert_slot_self s (sort_by_atime ss))
In-sort u (s ∷ ss) (inr m) = In-insert_slot u s (sort_by_atime ss) (In-sort u ss m)

-- In an ascending list the front part is no later than the back part.
pub Ascending-append :
    (s t : Slot) (xs ys : List Slot)
    → Ascending (xs ++ ys)
    → In s xs
    → In t ys
    → atime_of s ≤ atime_of t
Ascending-append s t [] ys a m n = absurd m
Ascending-append s t (x ∷ xs) ys a (inl e) n =
    subst (λ (w : Slot). atime_of w ≤ atime_of t) (sym e)
      (All-In (λ w. atime_of x ≤ atime_of w) t (xs ++ ys) a.0 (In-append_right t xs ys n))
Ascending-append s t (x ∷ xs) ys a (inr m) n = Ascending-append s t xs ys a.1 m n

-- Among slots with distinct names, the front part and the back part share no name.
pub Apart-append :
    (s t : Slot) (xs ys : List Slot) → Apart (xs ++ ys) → In s xs → In t ys → t.0 ≢ s.0
Apart-append s t [] ys a m n = absurd m
Apart-append s t (x ∷ xs) ys a (inl e) n =
    subst (λ (w : Slot). t.0 ≢ w.0) (sym e)
      (All-In (λ w. w.0 ≢ x.0) t (xs ++ ys) a.0 (In-append_right t xs ys n))
Apart-append s t (x ∷ xs) ys a (inr m) n = Apart-append s t xs ys a.1 m n
