-- ===== src/Engine/Vllm/Arena.antt =====
-- The share of the device that python/adapters/vllm_python.py asks for.
use infernix.Prelude.{
  ℕ, ◌+◌, ◌*◌, ◌/◌, ◌≤◌, ◌<◌, ◌≡◌, refl, sym, Bool, true, false, Option, none, some, ltb, arith,
  ltb→lt, subst, zero, suc,
}
use native.Mathlib.Nat.{mul-le-mul, mul-le-mul_left, mul-le-mul_right}
use infernix.Adapter.Context.{AdapterContext, require_device_mib}
use infernix.Engine.Vllm.{
  done, Fraction, mib, divide_arena, arena_of, observed_device_envelope_mib, device_arena_fraction,
}

-- A fraction of a device of so many bytes: the admitted quantity over the whole MiB of the device.
-- Times the bytes of the device, it is the admitted quantity and less than one MiB more.
pub record IsArena (total_bytes : ℕ) (f : Fraction) : Type 0 where
  pub positive : 0 < f.denominator
  pub at_most_one : f.numerator ≤ f.denominator
  pub admitted : (f.numerator * mib) * f.denominator ≤ f.numerator * total_bytes
  pub bounded : f.numerator * total_bytes < (f.numerator * mib + mib) * f.denominator

ltb-false_le : (a b : ℕ) → ltb a b ≡ false → b ≤ a
ltb-false_le a b h = ground arith

divide_arena_inv :
    (positive over : Bool) (a e : ℕ) (f : Fraction)
    → divide_arena positive over a e ≡ done f
    → (positive ≡ true) × (over ≡ false) × (f ≡ record { numerator = a; denominator = e })
divide_arena_inv false over a e f h = absurd (cc h)
divide_arena_inv true true a e f h = absurd (cc h)
divide_arena_inv true false a e f h = (refl, refl, sym (cc h))

-- The whole MiB of a size, and less than one more.
quotient : (total : ℕ) → ((total / mib) * mib ≤ total) × (total < (total / mib) * mib + mib)
quotient total = (omega arith, omega arith)

strictly :
    (a e total m : ℕ) → 0 < m → 0 < e → a ≤ e → total < e * m + m → a * total < (a * m + m) * e
strictly zero e total m pm pe le hi = omega (arith, mul-le-mul pm pe)
strictly (suc a) e total m pm pe le hi =
    omega (arith, mul-le-mul_left (suc a) hi, mul-le-mul_right m le)

scaled :
    (a e total m : ℕ)
    → 0 < m
    → 0 < e
    → a ≤ e
    → e * m ≤ total
    → total < e * m + m
    → ((a * m) * e ≤ a * total) × (a * total < (a * m + m) * e)
scaled a e total m pm pe le lo hi =
    (omega (arith, mul-le-mul_left a lo), strictly a e total m pm pe le hi)

-- A fraction is asked for only where the request carries an admitted quantity, which is its
-- numerator: times the bytes of the device it is the admitted MiB and less than one MiB more, and it
-- is at most one.
pub device_arena_fraction-IsArena :
    (total_bytes : ℕ) (context : AdapterContext) (f : Fraction)
    → device_arena_fraction (some total_bytes) context ≡ done f
    → (require_device_mib context ≡ some f.numerator) × IsArena total_bytes f
unfolding device_arena_fraction observed_device_envelope_mib
device_arena_fraction-IsArena total_bytes context f h = pick (require_device_mib context) refl h
  where
    pick :
        (o : Option ℕ)
        → require_device_mib context ≡ o
        → arena_of o (some total_bytes) ≡ done f
        → (require_device_mib context ≡ some f.numerator) × IsArena total_bytes f
    pick none e i = absurd (cc i)
    pick (some a) e i =
        let envelope = total_bytes / mib in
        let (positive, over, made) =
          divide_arena_inv (ltb 0 envelope) (ltb envelope a) a envelope f i in
        let (lo, hi) = quotient total_bytes in
        let pe = ltb→lt 0 envelope positive in
        let le = ltb-false_le envelope a over in
        let (below, above) = scaled a envelope total_bytes mib (omega arith) pe le lo hi in
        subst
          (λ (g : Fraction).
            (require_device_mib context ≡ some g.numerator) × IsArena total_bytes g)
          (sym made)
          (e, record { positive = pe; at_most_one = le; admitted = below; bounded = above })
