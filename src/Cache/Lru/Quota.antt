-- ===== src/Cache/Lru/Quota.antt =====
-- What `_enforce_lru_quota` promises of the cache, from the split that its loop makes.
use infernix.Prelude.{
  ℕ, ◌+◌, ◌≤◌, ◌<◌, ◌≡◌, ◌≢◌, ◌⊎◌, inl, inr, refl, ap, ◌∙◌, Bool, true, false, none, some, List, [],
  ◌∷◌, ◌++◌, arith, Option-cases, sum_of, length, All, sym, subst, In, All-In, In-append,
  In-append_right,
}
use infernix.Prelude.Text.{Text}
use infernix.Prelude.Dict.{Distinct, lookup}
use infernix.Cache.Disk.{
  Disk, Entry, Slot, slot_bytes, directory_size_bytes, directories, disk_bytes, is_dir_slot,
}
use infernix.Cache.Lru.{sort_by_atime, enforce_lru_quota}
use infernix.Cache.Lru.Sort.{Apart, Ascending, All-sort, sort-Apart, sort-Ascending, sum-sort}
use infernix.Cache.Lru.Member.{
  All-append_left, Apart-append_left, In-sort, Ascending-append, Apart-append,
}
use infernix.Cache.Lru.Evict.{Split, evict-Split, erase_all}
use infernix.Cache.Lru.Erase.{
  IsListed, directories-IsListed, directories-Apart, In-directories, sum-erase_all,
  erased_is_victim, survivor,
}

sum-append : (f : Slot → ℕ) (xs ys : List Slot) → sum_of f (xs ++ ys) ≡ sum_of f xs + sum_of f ys
sum-append f [] ys = omega arith
sum-append f (x ∷ xs) ys = omega (arith, sum-append f xs ys)

length-eq-sum : (xs : List Slot) → length xs ≡ sum_of (λ _. 1) xs
length-eq-sum [] = refl
length-eq-sum (x ∷ xs) = omega (arith, length-eq-sum xs)

not-In-nil : (s : Slot) (xs ys : List Slot) → xs ++ ys ≡ [] → In s xs → ⊥
not-In-nil s [] ys e m = m
not-In-nil s (x ∷ xs) ys e m = cc e

victim_not_kept : (s : Slot) (victims : List Slot) → All (λ t. t.0 ≢ s.0) victims → In s victims → ⊥
victim_not_kept s victims a m = All-In (λ t. t.0 ≢ s.0) s victims a m refl

module _ (stuck : Text → Bool) (works : (k : Text) → stuck k ≡ false) where
  module _ (quota : ℕ) (d : Disk) (u : Distinct d) where
    abbrev after : Disk
    after = enforce_lru_quota stuck quota d

    abbrev entries : List Slot
    entries = sort_by_atime (directories d)

    quota-Split : Split quota entries d after
    unfolding enforce_lru_quota
    quota-Split = evict-Split stuck works quota (sum_of slot_bytes entries) entries d refl

    victims-IsListed : (s : Split quota entries d after) → All (IsListed d) s.victims
    victims-IsListed s = All-append_left (IsListed d) s.victims s.kept (
        subst (All (IsListed d)) s.whole
          (All-sort (IsListed d) (directories d) (directories-IsListed d u)))

    victims-Apart : (s : Split quota entries d after) → Apart s.victims
    victims-Apart s =
        Apart-append_left s.victims s.kept
          (subst Apart s.whole (sort-Apart (directories d) (directories-Apart d u)))

    measure_kept :
        (f : Slot → ℕ) (s : Split quota entries d after)
        → sum_of f (directories after) ≡ sum_of f s.kept
    measure_kept f s =
        let balance = sum-erase_all f s.victims d u (victims-Apart s) (victims-IsListed s) in
        let left = ap (λ (e : Disk). sum_of f (directories e)) s.result in
        let all = ap (sum_of f) s.whole in
        omega (arith, balance, left, all, sum-append f s.victims s.kept, sum-sort f (directories d))

    -- Where no two entries have one name and every removal succeeds: after the quota is enforced
    -- the directories hold at most the quota, or at most one is left.
    pub enforce_fits : (disk_bytes after ≤ quota) ⊎ (length (directories after) ≤ 1)
    unfolding disk_bytes
    enforce_fits =
        let s = quota-Split in
        let bytes = measure_kept slot_bytes s in
        let count = measure_kept (λ _. 1) s in
        elim s.fits [
          | inl h ↦ inl (omega (arith, bytes))
          | inr h ↦
              inr (omega (arith, count, length-eq-sum s.kept, length-eq-sum (directories after)))
        ]

    kept_of_survivor :
        (s : Split quota entries d after) (k : Text) (e : Entry)
        → lookup k after ≡ some e
        → is_dir_slot (k, e) ≡ true
        → In (k, e) s.kept
    kept_of_survivor s k e h is =
        let (there, apart) =
          survivor s.victims d k e (ap (λ (x : Disk). lookup k x) (sym s.result) ∙ h) in
        let m = In-sort (k, e) (directories d) (In-directories d k e there is) in
        elim (In-append (k, e) s.victims s.kept (subst (In (k, e)) s.whole m)) [
          | inl gone ↦ absurd (victim_not_kept (k, e) s.victims apart gone)
          | inr kept ↦ kept
        ]

    victim_of_erased :
        (s : Split quota entries d after) (k : Text) (e : Entry)
        → lookup k d ≡ some e
        → lookup k after ≡ none
        → In (k, e) s.victims
    victim_of_erased s k e h g =
        erased_is_victim s.victims d k e h (ap (λ (x : Disk). lookup k x) (sym s.result) ∙ g)
          (victims-IsListed s) (victims-Apart s)

    pub enforce_survivor : (k : Text) (e : Entry) → lookup k after ≡ some e → lookup k d ≡ some e
    enforce_survivor k e h =
        (survivor quota-Split.victims d k e
          (ap (λ (x : Disk). lookup k x) (sym quota-Split.result) ∙ h)).0

    -- Where no two entries have one name and every removal succeeds: what was removed was last
    -- used no later than any directory that is still there.
    pub enforce_order :
        (a b : Text) (ea eb : Entry)
        → lookup a d ≡ some ea
        → lookup a after ≡ none
        → lookup b after ≡ some eb
        → is_dir_slot (b, eb) ≡ true
        → ea.atime ≤ eb.atime
    enforce_order a b ea eb here gone stays is =
        let s = quota-Split in
        Ascending-append (a, ea) (b, eb) s.victims s.kept
          (subst Ascending s.whole (sort-Ascending (directories d)))
          (victim_of_erased s a ea here gone) (kept_of_survivor s b eb stays is)

    latest_no_victim :
        (s : Split quota entries d after) (k : Text) (e : Entry) (kept : List Slot)
        → s.kept ≡ kept
        → ((j : Text) (f : Entry) → lookup j d ≡ some f → j ≢ k → f.atime < e.atime)
        → In (k, e) s.victims
        → ⊥
    latest_no_victim s k e [] none_kept latest m =
        s.last_stays (λ empty. not-In-nil (k, e) s.victims s.kept (sym s.whole ∙ empty) m) none_kept
    latest_no_victim s k e ((j, f) ∷ rest) some_kept latest m =
        let n : In (j, f) s.kept = subst (In (j, f)) (sym some_kept) (inl refl) in
        let apart =
          Apart-append (k, e) (j, f) s.victims s.kept
            (subst Apart s.whole (sort-Apart (directories d) (directories-Apart d u))) m n in
        let older : e.atime ≤ f.atime =
          Ascending-append (k, e) (j, f) s.victims s.kept
            (subst Ascending s.whole (sort-Ascending (directories d))) m n in
        let listed =
          All-In (IsListed d) (j, f) (s.victims ++ s.kept)
            (subst (All (IsListed d)) s.whole
              (All-sort (IsListed d) (directories d) (directories-IsListed d u)))
            (In-append_right (j, f) s.victims s.kept n) in
        absurd (omega (arith, latest j f listed.0 apart))

    -- Where no two entries have one name and every removal succeeds: a directory that was used
    -- after every other entry is never removed.
    pub enforce_keeps_latest :
        (k : Text) (e : Entry)
        → lookup k d ≡ some e
        → is_dir_slot (k, e) ≡ true
        → ((j : Text) (f : Entry) → lookup j d ≡ some f → j ≢ k → f.atime < e.atime)
        → lookup k after ≡ some e
    enforce_keeps_latest k e h is latest = elim (Option-cases (lookup k after)) [
      | inl gone ↦ absurd (
          latest_no_victim quota-Split k e quota-Split.kept refl latest
            (victim_of_erased quota-Split k e h gone))
      | inr (f, there) ↦
          let (found, apart) =
            survivor quota-Split.victims d k f
              (ap (λ (x : Disk). lookup k x) (sym quota-Split.result) ∙ there) in
          there ∙ sym found ∙ h
    ]

    victim_erased :
        (s : Split quota entries d after) (v : Slot) → In v s.victims → lookup v.0 after ≡ none
    victim_erased s v m = elim (Option-cases (lookup v.0 after)) [
      | inl gone ↦ gone
      | inr (f, there) ↦
          let apart =
            (survivor s.victims d v.0 f
              (ap (λ (x : Disk). lookup v.0 x) (sym s.result) ∙ there)).1 in
          absurd (victim_not_kept v s.victims apart m)
    ]

    -- Where no two entries have one name and every removal succeeds: either nothing was removed, or
    -- some removed directory was needed, since with its bytes the cache would still be over the
    -- quota.
    pub enforce_needed :
        (after ≡ d)
        ⊎ ((k : Text) × (e : Entry) × (lookup k d ≡ some e)
            × (lookup k after ≡ none)
            × (quota < directory_size_bytes e + disk_bytes after))
    unfolding disk_bytes
    enforce_needed =
        let s = quota-Split in
        elim s.needed [
          | inl e ↦ inl (s.result ∙ ap (λ (v : List Slot). erase_all v d) e)
          | inr (older, last, e, h) ↦
              let m : In last s.victims =
                subst (In last) (sym e) (In-append_right last older (last ∷ []) (inl refl)) in
              inr (
                last.0,
                last.1,
                (All-In (IsListed d) last s.victims (victims-IsListed s) m).0,
                victim_erased s last m,
                omega (arith, h, measure_kept slot_bytes s),
              )
        ]
