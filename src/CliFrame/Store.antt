-- ===== src/CliFrame/Store.antt =====
-- What storing one character does.
use nivalo_esp.CliFrame.{CliFrame, no_frame, activate, store, push}
use nivalo_esp.Common.{
  ℕ, zero, suc, ◌+◌, ◌≤◌, ◌<◌, ◌≡◌, ◌≢◌, ◌⊎◌, refl, ap, true, false, arith, List, [], ◌∷◌, ◌++◌,
  some, length, set, take,
}

pub push-store :
    (f : CliFrame) (c now : ℕ) (buffer : List ℕ)
    → c ≢ 10
    → push f c now (some buffer)
      ≡ (no_frame, (store (activate f now) c buffer).0, some (store (activate f now) c buffer).1)
unfolding push
push-store f c now buffer h = ground arith

pub store_discarding :
    (f : CliFrame) (c now : ℕ) (buffer : List ℕ)
    → f.discarding ≡ true
    → (store (activate f now) c buffer).0.discarding ≡ true
unfolding store
store_discarding f c now buffer d = ground arith

pub take-set :
    (xs : List ℕ) (i v : ℕ) → i < length xs → take (suc i) (set xs i v) ≡ take i xs ++ v ∷ []
take-set [] i v h = absurd (omega arith)
take-set (x ∷ xs) zero v h = refl
take-set (x ∷ xs) (suc i) v h = ap (◌∷◌ x) (take-set xs i v (omega arith))

-- A character that is kept.
pub store_kept :
    (f : CliFrame) (c now : ℕ) (buffer : List ℕ)
    → f.discarding ≡ false
    → f.saw_carriage_return ≡ false
    → c ≢ 13
    → c ≢ 0
    → f.length < f.maximum_length
    → store (activate f now) c buffer
      ≡ (record (activate f now) { length = f.length + 1 }, set buffer f.length c)
unfolding store
store_kept f c now buffer d s h k l = ground arith

-- A first carriage return.
pub store_return :
    (f : CliFrame) (c now : ℕ) (buffer : List ℕ)
    → c ≡ 13
    → f.discarding ≡ false
    → f.saw_carriage_return ≡ false
    → store (activate f now) c buffer
      ≡ (record (activate f now) { discarding = false; saw_carriage_return = true }, buffer)
unfolding store
store_return f c now buffer e d s = ground arith

-- What follows a carriage return spoils the line.
pub store_spoilt :
    (f : CliFrame) (c now : ℕ) (buffer : List ℕ)
    → f.saw_carriage_return ≡ true
    → (store (activate f now) c buffer).0.discarding ≡ true
unfolding store
store_spoilt f c now buffer s = ground arith

pub store_returned :
    (f : CliFrame) (c now : ℕ) (buffer : List ℕ)
    → c ≡ 13
    → (store (activate f now) c buffer).0.saw_carriage_return ≡ true
unfolding store
store_returned f c now buffer e = ground arith

-- Neither NUL nor a full buffer is kept.
pub store_refused :
    (f : CliFrame) (c now : ℕ) (buffer : List ℕ)
    → c ≢ 13
    → (c ≡ 0) ⊎ (f.maximum_length ≤ f.length)
    → (store (activate f now) c buffer).0.discarding ≡ true
unfolding store
store_refused f c now buffer h k = ground arith
