-- ===== src/Bootstrap/Delete.antt =====
-- `_delete_model_prefix` of python/adapters/model_bootstrap.py: batches of a thousand keys.
use infernix.Prelude.{
  ℕ, ◌+◌, ◌≤◌, ◌<◌, ◌≡◌, refl, ap, sym, ◌∙◌, Bool, true, false, Option, none, some, List, [], ◌∷◌,
  ◌++◌, ◌==◌, length, length-append, arith, All, All-append, subst,
}
use mathlib.Core.List.{append_assoc, append-nil}
use infernix.Prelude.Text.{Text, codes}
use infernix.Bootstrap.Store.{
  Command, delete_objects, put_object, upload_file, Bucket, Run, pure, raise, ◌>>=◌, issue,
  continue_inv, issue_inv,
}

abbrev pub batch_size : ℕ
batch_size = 1000

-- `pending` after an item: an item with no key, or with the empty one, adds nothing.
abbrev pub add_key : Option Text → List Text → List Text
add_key none pending = pending
add_key (some []) pending = pending
add_key (some (c ∷ key)) pending = pending ++ ((c ∷ key) ∷ [])

-- `if len(pending) == 1000: ...`, with what is pending after it.
abbrev pub send_full : (Command → Bool) → Bool → List Text → Run (List Text)
send_full takes true pending = issue takes (delete_objects pending) >>= λ _. pure []
send_full takes false pending = pure pending

-- The loop over the items; its result is what is still pending. `limit` is a thousand.
unfoldable pub delete_loop : (Command → Bool) → ℕ → List (Option Text) → List Text → Run (List Text)
delete_loop takes limit [] pending = pure pending
delete_loop takes limit (item ∷ rest) pending =
    send_full takes (length (add_key item pending) == limit) (add_key item pending) >>= λ left.
    delete_loop takes limit rest left

unfoldable pub flush_pending : (Command → Bool) → List Text → Run (Unit {0})
flush_pending takes [] = pure tt
flush_pending takes (key ∷ keys) = issue takes (delete_objects (key ∷ keys))

abbrev pub after_listing : (Command → Bool) → Bool → List Text → Run (Unit {0})
after_listing takes true pending = raise
after_listing takes false pending = flush_pending takes pending

unfoldable pub delete_model_prefix : Bucket → Text → Run (Unit {0})
delete_model_prefix bucket model_id =
    let listing = bucket.list_objects (model_id ++ codes "/") in
    delete_loop bucket.takes batch_size listing.items [] >>= λ pending.
    after_listing bucket.takes listing.breaks pending

-- The keys of the items, in order.
abbrev pub keys_of : List (Option Text) → List Text
keys_of [] = []
keys_of (item ∷ rest) = add_key item [] ++ keys_of rest

-- The keys that a log deletes, in order.
abbrev pub deleted : List Command → List Text
deleted [] = []
deleted (delete_objects keys ∷ log) = keys ++ deleted log
deleted (put_object _ _ ∷ log) = deleted log
deleted (upload_file _ _ ∷ log) = deleted log

-- A request that S3 takes: between one and `limit` keys to delete.
abbrev pub IsBatch : ℕ → Command → Type 0
IsBatch limit (delete_objects keys) = (0 < length keys) × (length keys ≤ limit)
IsBatch limit (put_object _ _) = ⊥
IsBatch limit (upload_file _ _) = ⊥

deleted-append : (a b : List Command) → deleted (a ++ b) ≡ deleted a ++ deleted b
deleted-append [] b = refl
deleted-append (delete_objects keys ∷ a) b =
    ap (λ (l : List Text). keys ++ l) (deleted-append a b)
    ∙ sym (append_assoc keys (deleted a) (deleted b))
deleted-append (put_object _ _ ∷ a) b = deleted-append a b
deleted-append (upload_file _ _ ∷ a) b = deleted-append a b

add_key-append : (item : Option Text) (p : List Text) → add_key item p ≡ p ++ add_key item []
add_key-append none p = sym (append-nil p)
add_key-append (some []) p = sym (append-nil p)
add_key-append (some (c ∷ key)) p = refl

length-add_key : (item : Option Text) (p : List Text) → length (add_key item p) ≤ length p + 1
length-add_key none p = omega arith
length-add_key (some []) p = omega arith
length-add_key (some (c ∷ key)) p = omega (arith, length-append p ((c ∷ key) ∷ []))

module _ (takes : Command → Bool) (limit : ℕ) (positive : 0 < limit) where
  -- After the test for a full batch.
  send_full_lem :
      (full : Bool) (pending left : List Text)
      → length pending ≤ limit
      → (length pending == limit) ≡ full
      → (send_full takes full pending).result ≡ some left
      → (length left < limit)
        × (All (IsBatch limit) (send_full takes full pending).log)
        × (deleted (send_full takes full pending).log ++ left ≡ pending)
  send_full_lem true pending left fits e h =
      let (u, i, r, l) =
        continue_inv (issue takes (delete_objects pending)).result
          (issue takes (delete_objects pending)).log (λ _. pure []) left h in
      let g = (issue_inv takes (delete_objects pending) u i).1 in
      let s : [] ≡ left = cc r in
      let logged = l ∙ ap (λ (c : List Command). c ++ []) g in
      (
        subst (λ (t : List Text). length t < limit) s positive,
        subst (All (IsBatch limit)) (sym logged) ((ground arith, fits), tt),
        ap (λ (c : List Command). deleted c ++ left) logged
            ∙ ap (λ (t : List Text). (pending ++ []) ++ t) (sym s)
            ∙ append-nil (pending ++ [])
            ∙ append-nil pending,
      )
  send_full_lem false pending left fits e h =
      let s : pending ≡ left = cc h in
      (subst (λ (l : List Text). length l < limit) s (ground arith), tt, sym s)

  -- Where the loop ends, the requests deleted every key seen but the pending ones.
  pub delete_loop_lem :
      (items : List (Option Text)) (pending left : List Text)
      → length pending < limit
      → (delete_loop takes limit items pending).result ≡ some left
      → (length left < limit)
        × (All (IsBatch limit) (delete_loop takes limit items pending).log)
        × (deleted (delete_loop takes limit items pending).log ++ left ≡ pending ++ keys_of items)
  unfolding delete_loop
  delete_loop_lem [] pending left fits h =
      let e : pending ≡ left = cc h in
      (subst (λ (l : List Text). length l < limit) e fits, tt, sym e ∙ sym (append-nil pending))
  delete_loop_lem (item ∷ rest) pending left fits h =
      let now = add_key item pending in
      let sent = send_full takes (length now == limit) now in
      let (mid, m, r, l) =
        continue_inv sent.result sent.log (λ p. delete_loop takes limit rest p) left h in
      let (a, b, c) =
        send_full_lem (length now == limit) now mid (omega (arith, length-add_key item pending))
          refl m in
      let after = delete_loop takes limit rest mid in
      let (d, e, f) = delete_loop_lem rest mid left a r in
      (
        d,
        subst (All (IsBatch limit)) (sym l) (All-append (IsBatch limit) sent.log after.log b e),
        ap (λ (t : List Command). deleted t ++ left) l
            ∙ ap (λ (t : List Text). t ++ left) (deleted-append sent.log after.log)
            ∙ append_assoc (deleted sent.log) (deleted after.log) left
            ∙ ap (λ (t : List Text). deleted sent.log ++ t) f
            ∙ sym (append_assoc (deleted sent.log) mid (keys_of rest))
            ∙ ap (λ (t : List Text). t ++ keys_of rest) (c ∙ add_key-append item pending)
            ∙ append_assoc pending (add_key item []) (keys_of rest),
      )

-- The last request, for what is left.
flush_lem :
    (takes : Command → Bool) (breaks : Bool) (left : List Text) (u : Unit {0})
    → length left < 1000
    → (after_listing takes breaks left).result ≡ some u
    → (breaks ≡ false)
      × (All (IsBatch 1000) (after_listing takes breaks left).log)
      × (deleted (after_listing takes breaks left).log ≡ left)
unfolding flush_pending
flush_lem takes true left u fits h = absurd (cc h)
flush_lem takes false [] u fits h = (refl, tt, refl)
flush_lem takes false (key ∷ keys) u fits h =
    let g = (issue_inv takes (delete_objects (key ∷ keys)) u h).1 in
    (
      refl,
      subst (All (IsBatch 1000)) (sym g) ((omega arith, omega arith), tt),
      ap deleted g ∙ append-nil (key ∷ keys),
    )

-- Deleting a prefix that succeeds has read the listing to its end, has asked for between one and a
-- thousand keys at a time, and has deleted the keys of the listing, each as often as it is listed
-- and in its order, and nothing else.
pub delete_model_prefix_complete :
    (bucket : Bucket) (model_id : Text) (u : Unit {0})
    → (delete_model_prefix bucket model_id).result ≡ some u
    → ((bucket.list_objects (model_id ++ codes "/")).breaks ≡ false)
      × (All (IsBatch 1000) (delete_model_prefix bucket model_id).log)
      × (deleted (delete_model_prefix bucket model_id).log
          ≡ keys_of (bucket.list_objects (model_id ++ codes "/")).items)
unfolding delete_model_prefix
delete_model_prefix_complete bucket model_id u h =
    let listing = bucket.list_objects (model_id ++ codes "/") in
    let loop = delete_loop bucket.takes batch_size listing.items [] in
    let (left, m, r, l) =
      continue_inv loop.result loop.log (after_listing bucket.takes listing.breaks) u h in
    let (a, b, c) =
      delete_loop_lem bucket.takes 1000 (omega arith) listing.items [] left (omega arith) m in
    let (d, e, f) = flush_lem bucket.takes listing.breaks left u a r in
    let last = after_listing bucket.takes listing.breaks left in
    (
      d,
      subst (All (IsBatch 1000)) (sym l) (All-append (IsBatch 1000) loop.log last.log b e),
      ap deleted l
          ∙ deleted-append loop.log last.log
          ∙ ap (λ (t : List Text). deleted loop.log ++ t) f
          ∙ c,
    )
