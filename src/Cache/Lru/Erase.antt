-- ===== src/Cache/Lru/Erase.antt =====
-- What is left on the disk after some directories are erased.
use infernix.Prelude.{
  ℕ, ◌+◌, ◌≡◌, ◌≢◌, inl, inr, sym, ap, true, none, some, List, [], ◌∷◌, arith, if◌then◌else◌,
  Bool-cases, sum_of, All, In,
}
use infernix.Prelude.Text.{Text, text_eq, text_eq_iff, text_eq_refl}
use infernix.Prelude.Dict.{Distinct, lookup, erase, lookup-erase, erase_absent, erase-Distinct}
use infernix.Cache.Disk.{Disk, Entry, Slot, directories, is_dir_slot}
use infernix.Cache.Lru.Sort.{Apart}
use infernix.Cache.Lru.Evict.{erase_all}

-- The slot is a directory of the disk, under its name.
abbrev pub IsListed : Disk → Slot → Type 0
IsListed d s = (lookup s.0 d ≡ some s.1) × (is_dir_slot s ≡ true)

IsListed-cons :
    (d : Disk) (k : Text) (e : Entry) (s : Slot)
    → lookup k d ≡ none
    → IsListed d s
    → IsListed ((k, e) ∷ d) s
unfolding lookup
IsListed-cons d k e (n, f) fresh (found, is) = elim (Bool-cases (text_eq k n)) [
  | inl same ↦ absurd (ground (arith, text_eq_iff k n))
  | inr other ↦ (rw other found, is)
]

All-IsListed-cons :
    (d : Disk) (k : Text) (e : Entry) (ss : List Slot)
    → lookup k d ≡ none
    → All (IsListed d) ss
    → All (IsListed ((k, e) ∷ d)) ss
All-IsListed-cons d k e [] fresh h = tt
All-IsListed-cons d k e (s ∷ ss) fresh h =
    (IsListed-cons d k e s fresh h.0, All-IsListed-cons d k e ss fresh h.1)

head_listed : (k : Text) (e : Entry) (d : Disk) → lookup k ((k, e) ∷ d) ≡ some e
unfolding lookup
head_listed k e d = ground (arith, text_eq_refl k)

directories-cons :
    (s : Slot) (d : Disk)
    → directories (s ∷ d) ≡ (if is_dir_slot s then s ∷ directories d else directories d)
unfolding directories
directories-cons s d = ground arith

pub directories-IsListed : (d : Disk) → Distinct d → All (IsListed d) (directories d)
directories-IsListed [] u = unfold directories in tt
directories-IsListed ((k, e) ∷ d) (fresh, u) =
    let rest = All-IsListed-cons d k e (directories d) fresh (directories-IsListed d u) in
    elim (Bool-cases (is_dir_slot (k, e))) [
      | inl is ↦ rw (directories-cons (k, e) d, is) ((head_listed k e d, is), rest)
      | inr no_dir ↦ rw (directories-cons (k, e) d, no_dir) rest
    ]

absent_apart :
    (d : Disk) (k : Text) (ss : List Slot)
    → lookup k d ≡ none
    → All (IsListed d) ss
    → All (λ s. s.0 ≢ k) ss
absent_apart d k [] fresh h = tt
absent_apart d k (s ∷ ss) fresh h =
    (λ e. cc (fresh, h.0.0, ap (λ (t : Text). lookup t d) e), absent_apart d k ss fresh h.1)

pub directories-Apart : (d : Disk) → Distinct d → Apart (directories d)
directories-Apart [] u = unfold directories in tt
directories-Apart ((k, e) ∷ d) (fresh, u) = elim (Bool-cases (is_dir_slot (k, e))) [
  | inl is ↦
      rw (directories-cons (k, e) d, is)
        (absent_apart d k (directories d) fresh (directories-IsListed d u), directories-Apart d u)
  | inr no_dir ↦ rw (directories-cons (k, e) d, no_dir) (directories-Apart d u)
]

pub In-directories :
    (d : Disk) (k : Text) (e : Entry)
    → lookup k d ≡ some e
    → is_dir_slot (k, e) ≡ true
    → In (k, e) (directories d)
unfolding lookup
In-directories [] k e h is = cc h
In-directories ((j, f) ∷ d) k e h is = elim (Bool-cases (text_eq j k)) [
  | inl same ↦
      let p : j ≡ k = (text_eq_iff j k).0 same in
      let q : f ≡ e = ground arith in
      let r : is_dir_slot (j, f) ≡ true = rw q is in
      rw (directories-cons (j, f) d, r) (inl (λ i. (sym p i, sym q i)))
  | inr other ↦
      let below = In-directories d k e (ground arith) is in
      elim (Bool-cases (is_dir_slot (j, f))) [
        | inl is' ↦ rw (directories-cons (j, f) d, is') (inr below)
        | inr no_dir ↦ rw (directories-cons (j, f) d, no_dir) below
      ]
]

sum-erase :
    (f : Slot → ℕ) (d : Disk) (s : Slot)
    → Distinct d
    → IsListed d s
    → sum_of f (directories (erase s.0 d)) + f s ≡ sum_of f (directories d)
unfolding lookup erase
sum-erase f [] s u h = cc (h.0)
sum-erase f ((k, e) ∷ d) (n, g) (fresh, u) (found, is) = elim (Bool-cases (text_eq k n)) [
  | inl same ↦
      let p : k ≡ n = (text_eq_iff k n).0 same in
      let q : e ≡ g = ground arith in
      let gone : erase n d ≡ d = rw p at (erase_absent k d fresh) in
      let r : is_dir_slot (k, e) ≡ true = rw q is in
      rw (directories-cons (k, e) d, same, gone, r)
        (omega (arith, ap (λ (t : Text). f (t, e)) p, ap (λ (t : Entry). f (n, t)) q))
  | inr other ↦
      let below = sum-erase f d (n, g) u (ground arith, is) in
      elim (Bool-cases (is_dir_slot (k, e))) [
        | inl is' ↦
            rw (other, directories-cons (k, e) d, directories-cons (k, e) (erase n d), is')
              (omega (arith, below))
        | inr no_dir ↦
            rw (other, directories-cons (k, e) d, directories-cons (k, e) (erase n d), no_dir) below
      ]
]

IsListed-erase : (d : Disk) (k : Text) (s : Slot) → s.0 ≢ k → IsListed d s → IsListed (erase k d) s
IsListed-erase d k (n, g) ne (found, is) =
    (ground (arith, lookup-erase k n d, text_eq_iff k n, λ (p : n ≡ k). ne p), is)

All-IsListed-erase :
    (d : Disk) (k : Text) (ss : List Slot)
    → All (λ s. s.0 ≢ k) ss
    → All (IsListed d) ss
    → All (IsListed (erase k d)) ss
All-IsListed-erase d k [] a h = tt
All-IsListed-erase d k (s ∷ ss) a h =
    (IsListed-erase d k s a.0 h.0, All-IsListed-erase d k ss a.1 h.1)

pub sum-erase_all :
    (f : Slot → ℕ) (victims : List Slot) (d : Disk)
    → Distinct d
    → Apart victims
    → All (IsListed d) victims
    → sum_of f (directories (erase_all victims d)) + sum_of f victims ≡ sum_of f (directories d)
sum-erase_all f [] d u a h = omega arith
sum-erase_all f (v ∷ vs) d u a h = omega (
  arith,
  sum-erase f d v u h.0,
  sum-erase_all f vs (erase v.0 d) (erase-Distinct v.0 d u) a.1
      (All-IsListed-erase d v.0 vs a.0 h.1),
)

-- A name that is gone was a victim's.
pub erased_is_victim :
    (victims : List Slot) (d : Disk) (k : Text) (e : Entry)
    → lookup k d ≡ some e
    → lookup k (erase_all victims d) ≡ none
    → All (IsListed d) victims
    → Apart victims
    → In (k, e) victims
erased_is_victim [] d k e h g l a = cc (h, g)
erased_is_victim (v ∷ vs) d k e h g l a = elim (Bool-cases (text_eq v.0 k)) [
  | inl same ↦
      let p : v.0 ≡ k = (text_eq_iff v.0 k).0 same in
      let q : v.1 ≡ e = ground (arith, l.0.0, ap (λ (t : Text). lookup t d) p) in
      inl (λ i. (sym p i, sym q i))
  | inr other ↦ inr (
      erased_is_victim vs (erase v.0 d) k e (ground (arith, lookup-erase v.0 k d)) g
        (All-IsListed-erase d v.0 vs a.0 l.1) a.1)
]

-- A name that is still there was no victim's, and has its entry unchanged.
pub survivor :
    (victims : List Slot) (d : Disk) (k : Text) (e : Entry)
    → lookup k (erase_all victims d) ≡ some e
    → (lookup k d ≡ some e) × All (λ s. s.0 ≢ k) victims
survivor [] d k e h = (h, tt)
survivor (v ∷ vs) d k e h =
    let (there, apart) = survivor vs (erase v.0 d) k e h in
    elim (Bool-cases (text_eq v.0 k)) [
      | inl same ↦ cc (there, rw same at (lookup-erase v.0 k d))
      | inr other ↦
          (ground (arith, lookup-erase v.0 k d), (ground (arith, text_eq_iff v.0 k), apart))
    ]
