-- ===== src/Adapter/Process/Log.antt =====
-- The end of the backend log that an error message carries, of python/adapters/common.py.
use infernix.Prelude.{
  ℕ, zero, suc, ◌-◌, ◌≡◌, refl, ap, min, [], ◌∷◌, ◌++◌, arith, length, take, drop,
}
use infernix.Prelude.Text.{Text}
use infernix.Adapter.Process.{tail_payload}

pub take-drop : (n : ℕ) (s : Text) → s ≡ take n s ++ drop n s
take-drop zero s = refl
take-drop (suc n) [] = refl
take-drop (suc n) (c ∷ s) = ap (λ (t : Text). c ∷ t) (take-drop n s)

pub length-drop : (n : ℕ) (s : Text) → length (drop n s) ≡ length s - n
length-drop zero s = omega arith
length-drop (suc n) [] = omega arith
length-drop (suc n) (c ∷ s) = omega (arith, length-drop n s)

-- What is read of the log is its end, as many bytes as are asked for or the whole of a shorter log.
pub tail_payload_lem :
    (max_bytes : ℕ) (log : Text)
    → (front : Text) × (log ≡ front ++ tail_payload max_bytes log)
      × (length (tail_payload max_bytes log) ≡ min max_bytes (length log))
unfolding tail_payload
tail_payload_lem max_bytes log = (
  take (length log - max_bytes) log,
  take-drop (length log - max_bytes) log,
  omega (arith, length-drop (length log - max_bytes) log),
)
