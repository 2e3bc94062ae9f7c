-- ===== src/Cache/Lru/Evict.antt =====
-- What the eviction loop does: it removes a prefix of the entries, and no more than it must.
use infernix.Prelude.{
  ℕ, ◌+◌, ◌-◌, ◌≤◌, ◌<◌, ◌≡◌, ◌≢◌, ◌⊎◌, inl, inr, refl, ap, ◌∙◌, Bool, false, List, [], ◌∷◌, ◌++◌,
  arith, ltb, Bool-cases, sum_of, length,
}
use infernix.Prelude.Text.{Text}
use infernix.Prelude.Dict.{erase}
use infernix.Cache.Disk.{Disk, Slot, slot_bytes}
use infernix.Cache.Lru.{rmtree, evict}

abbrev pub erase_all : List Slot → Disk → Disk
erase_all [] d = d
erase_all (s ∷ ss) d = erase_all ss (erase s.0 d)

-- The last victim was removed while the cache was over its quota.
abbrev pub Needed : ℕ → List Slot → List Slot → Type 0
Needed quota victims kept =
    (victims ≡ [])
    ⊎ ((older : List Slot) × (last : Slot) × (victims ≡ older ++ (last ∷ []))
        × (quota < slot_bytes last + sum_of slot_bytes kept))

pub record Split (quota : ℕ) (entries : List Slot) (before after : Disk) : Type 0 where
  pub victims : List Slot
  pub kept : List Slot
  pub whole : entries ≡ victims ++ kept
  pub result : after ≡ erase_all victims before
  pub fits : (sum_of slot_bytes kept ≤ quota) ⊎ (length kept ≤ 1)
  pub last_stays : entries ≢ [] → kept ≢ []
  pub needed : Needed quota victims kept

cons-ne-nil : (s : Slot) (ss : List Slot) → s ∷ ss ≢ []
cons-ne-nil s ss e = cc

extend-Needed :
    (quota total : ℕ) (v w : Slot) (rest victims kept : List Slot)
    → w ∷ rest ≡ victims ++ kept
    → total ≡ sum_of slot_bytes (v ∷ w ∷ rest)
    → quota < total
    → Needed quota victims kept
    → Needed quota (v ∷ victims) kept
extend-Needed quota total v w rest victims kept whole sum over (inl e) =
    let kept_all : w ∷ rest ≡ kept = whole ∙ ap (λ (l : List Slot). l ++ kept) e in
    inr (
      [],
      v,
      ap (λ (l : List Slot). v ∷ l) e,
      omega (arith, ap (λ (l : List Slot). sum_of slot_bytes l) kept_all),
    )
extend-Needed quota total v w rest victims kept whole sum over (inr (older, last, e, h)) =
    inr (v ∷ older, last, ap (λ (l : List Slot). v ∷ l) e, h)

module _ (stuck : Text → Bool) (works : (k : Text) → stuck k ≡ false) where
  rmtree-eq-erase : (k : Text) (d : Disk) → rmtree stuck k d ≡ erase k d
  unfolding rmtree
  rmtree-eq-erase k d = rw (works k)

  pub evict-Split :
      (quota total : ℕ) (entries : List Slot) (d : Disk)
      → total ≡ sum_of slot_bytes entries
      → Split quota entries d (evict stuck quota total entries d)
  unfolding evict
  evict-Split quota total [] d sum = record {
    victims = [];
    kept = [];
    whole = refl;
    result = refl;
    fits = inr (omega arith);
    last_stays = λ h. h;
    needed = inl refl;
  }
  evict-Split quota total (last ∷ []) d sum = record {
    victims = [];
    kept = last ∷ [];
    whole = refl;
    result = refl;
    fits = inr (omega arith);
    last_stays = λ h. h;
    needed = inl refl;
  }
  evict-Split quota total (v ∷ w ∷ rest) d sum = elim (Bool-cases (ltb quota total)) [
    | inl over ↦
        let less = total - slot_bytes v in
        let s = evict-Split quota less (w ∷ rest) (rmtree stuck v.0 d) (omega arith) in
        rw over (record {
          victims = v ∷ s.victims;
          kept = s.kept;
          whole = ap (λ (l : List Slot). v ∷ l) s.whole;
          result = s.result ∙ ap (erase_all s.victims) (rmtree-eq-erase v.0 d);
          fits = s.fits;
          last_stays = λ _. s.last_stays (cons-ne-nil w rest);
          needed =
              extend-Needed quota total v w rest s.victims s.kept s.whole sum (ground arith)
                s.needed;
        })
    | inr under ↦ rw under (record {
      victims = [];
      kept = v ∷ w ∷ rest;
      whole = refl;
      result = refl;
      fits = inl (ground arith);
      last_stays = λ h. h;
      needed = inl refl;
    })
  ]
