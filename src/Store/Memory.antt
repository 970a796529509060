-- ===== src/Store/Memory.antt =====
-- A flash in memory that loses its power after some puts.
use nivalo_esp.Store.{Preferences}
use nivalo_esp.Store.Flash.{IsFlash}
use nivalo_esp.Common.{
  ℕ, zero, suc, ◌≡◌, ◌≢◌, ◌⊎◌, inl, inr, refl, sym, ap, true, Option, none, some, length,
  if◌then◌else◌, Bool-cases, Text, text_eq, text_eq_iff,
}

-- How many more puts succeed, and what the keys have.
abbrev pub Memory : Type 0
Memory = ℕ × (Text → Option Text)

abbrev or_default : Option Text → Text → Text
or_default none default = default
or_default (some value) default = value

abbrev put : Memory → Text → Text → ℕ × Memory
put (zero, values) key value = (0, (zero, values))
put (suc n, values) key value =
    (length value, (n, λ k. if text_eq k key then some value else values k))

abbrev pub memory : Preferences Memory
memory = record {
  get_string = λ s key default. or_default (s.1 key) default;
  put_string = put;
  erase_all = λ s. (true, (s.0, λ k. none));
}

abbrev pub blank : ℕ → Memory
blank puts = (puts, λ k. none)

put_other :
    (s : Memory) (key other value default : Text)
    → key ≢ other
    → memory.get_string (memory.put_string s key value).1 other default
      ≡ memory.get_string s other default
put_other (zero, values) key other value default ne = refl
put_other (suc n, values) key other value default ne = elim (Bool-cases (text_eq other key)) [
  | inl same ↦ absurd (ne (sym ((text_eq_iff other key).0 same)))
  | inr different ↦ ap (λ b. or_default (if b then some value else values other) default) different
]

put_atomic :
    (s : Memory) (key value : Text)
    → ((default : Text) → memory.get_string (memory.put_string s key value).1 key default ≡ value)
      ⊎ ((default : Text)
          → memory.get_string (memory.put_string s key value).1 key default
            ≡ memory.get_string s key default)
put_atomic (zero, values) key value = inr (λ default. refl)
put_atomic (suc n, values) key value = inl (λ default.
    ap (λ b. or_default (if b then some value else values key) default)
      ((text_eq_iff key key).1 refl))

stored :
    (o : Option Text)
    → ((default : Text) → or_default o default ≡ default)
      ⊎ ((value : Text) × ((default : Text) → or_default o default ≡ value))
stored none = inl (λ default. refl)
stored (some value) = inr (value, λ default. refl)

pub memory-IsFlash : IsFlash memory
memory-IsFlash = record {
  put_other = put_other;
  put_atomic = put_atomic;
  get_default = λ s key. stored (s.1 key);
}
