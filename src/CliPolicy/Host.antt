-- ===== src/CliPolicy/Host.antt =====
-- The hosts that provisioning accepts are the DNS names.
use native.Mathlib.Decide.{ℕ_discrete}
use mathlib.Core.List.{append-nil, append_assoc}
use nivalo_esp.CliPolicy.{
  is_alpha_numeric, is_control, contains_control, host_step, host_loop, is_mqtt_host,
}
use nivalo_esp.Common.{
  length-append, ℕ, ◌≤◌, ◌≡◌, ◌≢◌, ◌⊎◌, inl, inr, refl, sym, ap, ap₂, subst, ◌∙◌, Bool, true, false,
  not, ◌&&◌, ◌||◌, arith, List, [], ◌∷◌, ◌++◌, Option, none, some, length, get_or, all, ltb, leb,
  ◌==◌, if◌then◌else◌, Bool-cases, Option-cases, Text,
}

-- The labels between the full stops.
abbrev pub labels : Text → List ℕ × List (List ℕ)
labels [] = ([], [])
labels (c ∷ rest) =
    let (first, others) = labels rest in
    if c == b'.' then ([], first ∷ others) else (c ∷ first, others)

abbrev last_or : ℕ → List ℕ → ℕ
last_or d [] = d
last_or d (c ∷ rest) = last_or c rest

abbrev pub is_label_char : ℕ → Bool
is_label_char c = is_alpha_numeric c || c == b'-'

-- One to 63 letters, digits and hyphens, with no hyphen at either end.
abbrev pub is_label : List ℕ → Bool
is_label label =
    leb 1 (length label)
    && leb (length label) 63
    && all is_label_char label
    && not (get_or label 0 b'-' == b'-')
    && not (last_or b'-' label == b'-')

-- What the loop knows of the label so far.
record IsPrefix (label : List ℕ) : Type 0 where
  fits : length label ≤ 63
  allowed : all is_label_char label ≡ true
  first : (label ≡ []) ⊎ (get_or label 0 b'-' ≢ b'-')

last_or-append : (d c : ℕ) (label : List ℕ) → last_or d (label ++ c ∷ []) ≡ c
last_or-append d c [] = refl
last_or-append d c (x ∷ label) = last_or-append x c label

last_or-length : (d e : ℕ) (label : List ℕ) → 1 ≤ length label → last_or d label ≡ last_or e label
last_or-length d e [] h = absurd (omega arith)
last_or-length d e (x ∷ label) h = refl

all-append : (p : ℕ → Bool) (xs ys : List ℕ) → all p (xs ++ ys) ≡ (all p xs && all p ys)
all-append p [] ys = refl
all-append p (x ∷ xs) ys = ground (arith, all-append p xs ys)

get_or-append : (xs ys : List ℕ) (d : ℕ) → 1 ≤ length xs → get_or (xs ++ ys) 0 d ≡ get_or xs 0 d
get_or-append [] ys d h = absurd (omega arith)
get_or-append (x ∷ xs) ys d h = refl

IsPrefix-append :
    (label : List ℕ) (c n : ℕ)
    → IsPrefix label
    → c ≢ b'.'
    → host_step (length label) (last_or 0 label) c ≡ some n
    → IsPrefix (label ++ c ∷ []) × (n ≡ length (label ++ c ∷ []))
unfolding host_step
IsPrefix-append [] c n p h e = (ground arith, ground arith)
IsPrefix-append (x ∷ label) c n p h e =
    ground
      (arith, length-append (x ∷ label) (c ∷ []), all-append is_label_char (x ∷ label) (c ∷ []))

refused :
    (label rest : List ℕ) (c : ℕ)
    → c ≢ b'.'
    → host_step (length label) (last_or 0 label) c ≡ none
    → is_label (label ++ c ∷ rest) ≡ false
unfolding host_step
refused [] rest c h e = ground arith
refused (x ∷ label) rest c h e =
    ground
      (arith, length-append (x ∷ label) (c ∷ rest), all-append is_label_char (x ∷ label) (c ∷ rest))

-- A label that has come so far ends well unless it is empty or its last character is a hyphen.
is_label-IsPrefix :
    (label : List ℕ)
    → IsPrefix label
    → is_label label ≡ (ltb 0 (length label) && not (last_or 0 label == b'-'))
is_label-IsPrefix [] p = refl
is_label-IsPrefix (x ∷ label) p = ground arith

step_dot :
    (n previous : ℕ)
    → host_step n previous b'.' ≡ (if ltb 0 n && not (previous == b'-') then some 0 else none)
unfolding host_step
step_dot n previous = ground arith

host_loop-step :
    (n previous c : ℕ) (rest : List ℕ) (o : Option ℕ)
    → host_step n previous c ≡ o
    → host_loop n previous (c ∷ rest)
      ≡ elim o as (λ _. Bool) [ none ↦ false | some m ↦ host_loop m c rest ]
unfolding host_loop
host_loop-step n previous c rest o e =
    ap (λ s. elim s as (λ _. Bool) [ none ↦ false | some m ↦ host_loop m c rest ]) e

labels-char :
    (c : ℕ) (rest : List ℕ) → c ≢ b'.' → labels (c ∷ rest) ≡ (c ∷ (labels rest).0, (labels rest).1)
labels-char c rest h = ground arith

-- Before the first character of a label the one before it does not matter.
host_loop-start : (a b : ℕ) (rest : List ℕ) → host_loop 0 a rest ≡ host_loop 0 b rest
unfolding host_loop
host_loop-start a b [] = refl
host_loop-start a b (c ∷ rest) =
    let same : host_step 0 a c ≡ host_step 0 b c = unfold host_step in ground arith in
    ap (λ s. elim s as (λ _. Bool) [ none ↦ false | some m ↦ host_loop m c rest ]) same

host_loop-dot :
    (label rest : List ℕ)
    → IsPrefix label
    → host_loop 0 0 rest ≡ (is_label (labels rest).0 && all is_label (labels rest).1)
    → host_loop (length label) (last_or 0 label) (b'.' ∷ rest)
      ≡ (is_label label && (is_label (labels rest).0 && all is_label (labels rest).1))
host_loop-dot label rest p ih =
    let step = step_dot (length label) (last_or 0 label) in
    let ends = is_label-IsPrefix label p in
    elim (Bool-cases (is_label label)) [
      | inl good ↦
          let e : host_step (length label) (last_or 0 label) b'.' ≡ some 0 = ground arith in
          rw good (host_loop-step _ _ b'.' rest (some 0) e ∙ host_loop-start b'.' 0 rest ∙ ih)
      | inr bad ↦
          let e : host_step (length label) (last_or 0 label) b'.' ≡ none = ground arith in
          rw bad (host_loop-step _ _ b'.' rest none e)
    ]

host_loop-char :
    (label rest : List ℕ) (c m : ℕ)
    → c ≢ b'.'
    → m ≡ length (label ++ c ∷ [])
    → host_step (length label) (last_or 0 label) c ≡ some m
    → host_loop (length (label ++ c ∷ [])) (last_or 0 (label ++ c ∷ [])) rest
      ≡ (is_label ((label ++ c ∷ []) ++ (labels rest).0) && all is_label (labels rest).1)
    → host_loop (length label) (last_or 0 label) (c ∷ rest)
      ≡ (is_label (label ++ (labels (c ∷ rest)).0) && all is_label (labels (c ∷ rest)).1)
host_loop-char label rest c m h n e ih =
    rw (labels-char c rest h, ← append_assoc label (c ∷ []) (labels rest).0)
      (host_loop-step (length label) (last_or 0 label) c rest (some m) e
        ∙ ap₂ (λ k d. host_loop k d rest) n (sym (last_or-append 0 c label))
        ∙ ih)

host_loop-labels :
    (label rest : List ℕ)
    → IsPrefix label
    → host_loop (length label) (last_or 0 label) rest
      ≡ (is_label (label ++ (labels rest).0) && all is_label (labels rest).1)
host_loop-labels label [] p =
    unfold host_loop in rw (append-nil label, is_label-IsPrefix label p) (ground arith)
host_loop-labels label (c ∷ rest) p = elim (ℕ_discrete c b'.') [
  | yes dot ↦
      subst
        (λ d.
          host_loop (length label) (last_or 0 label) (d ∷ rest)
          ≡ (is_label (label ++ (labels (d ∷ rest)).0) && all is_label (labels (d ∷ rest)).1))
        (sym dot)
        (subst
          (λ l.
            host_loop (length label) (last_or 0 label) (b'.' ∷ rest)
            ≡ (is_label l && (is_label (labels rest).0 && all is_label (labels rest).1)))
          (sym (append-nil label))
          (host_loop-dot label rest p (host_loop-labels [] rest (ground arith))))
  | no other ↦ elim (Option-cases (host_step (length label) (last_or 0 label) c)) [
    | inl e ↦
        rw
          (
            labels-char c rest other,
            host_loop-step _ _ c rest none e,
            refused label (labels rest).0 c other e,
          )
          refl
    | inr (m, e) ↦
        let (p', n) = IsPrefix-append label c m p other e in
        host_loop-char label rest c m other n e (host_loop-labels (label ++ c ∷ []) rest p')
  ]
]

host_loop_control :
    (n previous : ℕ) (value : List ℕ)
    → host_loop n previous value ≡ true
    → all (λ c. not (is_control c)) value ≡ true
host_loop_control n previous [] h = refl
host_loop_control n previous (c ∷ rest) h = elim (Option-cases (host_step n previous c)) [
  | inl e ↦ absurd (ground (arith, host_loop-step n previous c rest none e))
  | inr (m, e) ↦
      let no_control : is_control c ≡ false = unfold host_step is_control in ground arith in
      rw no_control
        (host_loop_control m c rest (sym (host_loop-step n previous c rest (some m) e) ∙ h))
]

-- A host is accepted exactly if it has at most 253 characters and each of the labels between its
-- full stops has one to 63 letters, digits and hyphens, with no hyphen at either end.
pub is_mqtt_host-labels :
    (value : List ℕ)
    → is_mqtt_host (some value)
      ≡ (leb (length value) 253 && is_label (labels value).0 && all is_label (labels value).1)
unfolding is_mqtt_host contains_control
is_mqtt_host-labels [] = refl
is_mqtt_host-labels (c ∷ rest) =
    ground (arith, host_loop-labels [] (c ∷ rest) (ground arith), host_loop_control 0 0 (c ∷ rest))
