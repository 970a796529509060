-- ===== src/ReceiveSequence/Delivery.antt =====
-- Delivery of frames that the sender repeats.
use nivalo_esp.ReceiveSequence.{ReceiveSequence, reset, observe, acknowledgment}
use nivalo_esp.Common.{
  false, ℕ, zero, suc, ◌≡◌, ◌≢◌, refl, ap, true, arith, List, [], ◌∷◌, ◌++◌, map, replicate,
  if◌then◌else◌,
}

-- What is passed on of a series of frames, and the state after it.
abbrev pub deliver : ReceiveSequence → List ℕ → List ℕ × ReceiveSequence
deliver s [] = ([], s)
deliver s (n ∷ ns) =
    let (fresh, s') = observe s n in
    let (rest, s'') = deliver s' ns in (if fresh then n ∷ rest else rest, s'')

-- Each frame sent once and then again as often as its second number says.
abbrev pub with_repeats : List (ℕ × ℕ) → List ℕ
with_repeats [] = []
with_repeats ((n, again) ∷ rest) = replicate (suc again) n ++ with_repeats rest

abbrev pub numbers : List (ℕ × ℕ) → List ℕ
numbers = map λ f. f.0

-- No two frames in a row have one number.
abbrev pub Distinct : List (ℕ × ℕ) → Type 0
Distinct [] = Unit {0}
Distinct (f ∷ []) = Unit {0}
Distinct (f ∷ g ∷ rest) = (f.0 ≢ g.0) × Distinct (g ∷ rest)

abbrev after : ℕ → ReceiveSequence
after n = record { has_sequence = true; last_sequence = n }

deliver_repeats :
    (again n : ℕ) (rest : List ℕ)
    → deliver (after n) (replicate again n ++ rest) ≡ deliver (after n) rest
unfolding observe
deliver_repeats zero n rest = refl
deliver_repeats (suc again) n rest = ground (arith, deliver_repeats again n rest)

-- The number of the last frame, or `n` if there is none.
abbrev pub last_of : ℕ → List (ℕ × ℕ) → ℕ
last_of n [] = n
last_of n (f ∷ rest) = last_of f.0 rest

pub observe-observe : (s : ReceiveSequence) (n : ℕ) → (observe (observe s n).1 n).0 ≡ false
unfolding observe
observe-observe s n = ground arith

observe-ne : (n m : ℕ) → n ≢ m → observe (after n) m ≡ (true, after m)
unfolding observe
observe-ne n m h = ground arith

deliver-after :
    (n : ℕ) (fs : List (ℕ × ℕ)) (again : ℕ)
    → Distinct ((n, again) ∷ fs)
    → deliver (after n) (with_repeats fs) ≡ (numbers fs, after (last_of n fs))
deliver-after n [] again d = refl
deliver-after n ((m, k) ∷ fs) again d =
    rw (observe-ne n m d.0, deliver_repeats k m (with_repeats fs), deliver-after m fs k d.1)

delivered :
    (n again : ℕ) (fs : List (ℕ × ℕ))
    → Distinct ((n, again) ∷ fs)
    → deliver reset (with_repeats ((n, again) ∷ fs)) ≡ (n ∷ numbers fs, after (last_of n fs))
unfolding observe reset
delivered n again fs d = rw (deliver_repeats again n (with_repeats fs), deliver-after n fs again d)

-- If no two frames in a row have one number, each frame is passed on exactly once, in order,
-- however often it is repeated, and the last one is acknowledged.
pub deliver_once :
    (n again : ℕ) (fs : List (ℕ × ℕ))
    → Distinct ((n, again) ∷ fs)
    → let (passed, s) = deliver reset (with_repeats ((n, again) ∷ fs)) in
      (passed ≡ numbers ((n, again) ∷ fs)) × (acknowledgment s ≡ last_of n fs)
unfolding acknowledgment
deliver_once n again fs d =
    let e = delivered n again fs d in (ap (λ r. r.0) e, ap (λ r. acknowledgment r.1) e)
