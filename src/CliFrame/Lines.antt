-- ===== src/CliFrame/Lines.antt =====
-- Which lines come through the framing, and as what.
use nivalo_esp.CliFrame.Collect.{
  collect, Collected, feed-Collected, feed, Input, characters, strip_cr, is_clean, line_of, prepend,
}
use nivalo_esp.CliFrame.{new, FrameResult, ready, dropped, CliFrame, Buffer, push}
use nivalo_esp.Common.{
  ℕ, suc, ◌-◌, ◌≤◌, ◌≡◌, ◌≢◌, refl, subst, ◌∙◌, not, ◌&&◌, ◌||◌, arith, List, [], ◌∷◌, Option, none,
  some, length, take, all, All, ltb, leb, ◌==◌, if◌then◌else◌, Text,
}

abbrev accepted : ℕ → Text → Option Text
accepted room content =
    if leb (length content) room && all is_clean content then some content else none

accepted-cons :
    (room c : ℕ) (content : Text)
    → accepted room (c ∷ content)
      ≡ (if c == 13 || c == 0 || room == 0 then none else prepend c (accepted (room - 1) content))
accepted-cons room c content = ground arith

collect-accepted : (room : ℕ) (line : Text) → collect room line ≡ accepted room (strip_cr line)
unfolding collect
collect-accepted room [] = ground arith
collect-accepted room (c ∷ []) = ground arith
collect-accepted room (c ∷ d ∷ rest) =
    ground
      (arith, collect-accepted (room - 1) (d ∷ rest), accepted-cons room c (strip_cr (d ∷ rest)))

-- What a newline makes of a collected line.
abbrev pub Framed : FrameResult × CliFrame × Buffer → Option Text → Type 0
Framed r none = r.0 ≡ dropped
Framed r (some content) =
    (r.0 ≡ ready)
    × (r.1.length ≡ length content)
    × (b : List ℕ) × (r.2 ≡ some b)
    × (take (length content) b ≡ content)

abbrev nonempty : Option Text → Option Text
nonempty none = none
nonempty (some []) = none
nonempty (some (c ∷ content)) = some (c ∷ content)

nonempty-accepted :
    (maximum : ℕ) (content : Text)
    → nonempty (accepted maximum content) ≡ (
        if ltb 0 (length content) && leb (length content) maximum && all is_clean content
        then some content
        else none)
nonempty-accepted maximum [] = ground arith
nonempty-accepted maximum (c ∷ content) = ground arith

push_newline :
    (f : CliFrame) (now : ℕ) (b : List ℕ)
    → push f 10 now (some b)
      ≡ (if not f.discarding && ltb 0 f.length then ready else dropped, f, some b)
unfolding push
push_newline f now b = refl

newline-Framed :
    (f : CliFrame) (now : ℕ) (buffer : List ℕ) (s : CliFrame × Buffer) (content : Option Text)
    → f.length ≡ 0
    → Collected f buffer s content
    → Framed (push s.0 10 now s.1) (nonempty content)
unfolding push
newline-Framed f now buffer (g, none) none z k = refl
newline-Framed f now buffer (g, some b) none z k = ground arith
newline-Framed f now buffer s (some []) z (d, l, b, e, t) = rw e (ground arith)
newline-Framed f now buffer s (some (c ∷ content)) z (d, l, b, e, t) =
    let len : s.0.length ≡ suc (length content) = omega arith in
    rw e (ground arith, len, b, refl, subst (λ n. take n b ≡ c ∷ content) len (t ∙ rw z))

-- A new frame whose buffer holds the maximum length, fed the characters of a line and then its
-- newline: if the line, less one carriage return at its end, is not empty, is no longer than the
-- maximum and has no other carriage return and no NUL, it is ready and stands at the start of the
-- buffer, with its length in the frame; any other line is dropped.
pub frame_line :
    (maximum timeout now : ℕ) (input : Input) (buffer : List ℕ)
    → maximum ≤ length buffer
    → All (λ c. c ≢ 10) (characters input)
    → let (f, b) = feed (new maximum timeout) input (some buffer) in
      Framed (push f 10 now b) (line_of maximum (characters input))
unfolding new
frame_line maximum timeout now input buffer fits h =
    let f = new maximum timeout in
    let whole : maximum - 0 ≡ maximum = omega arith in
    let s = feed f input (some buffer) in
    let left : Collected f buffer s (collect maximum (characters input)) =
      subst (λ n. Collected f buffer s (collect n (characters input))) whole
        (feed-Collected input f buffer h refl refl (omega arith) fits) in
    rw
      (
        ← nonempty-accepted maximum (strip_cr (characters input)),
        ← collect-accepted maximum (characters input),
      )
      (newline-Framed f now buffer s (collect maximum (characters input)) refl left)
