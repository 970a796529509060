-- ===== src/CliFrame/Tests.antt =====
-- The theorems at concrete inputs.
use nivalo_esp.CliFrame.{new, push, expire, dropped}
use nivalo_esp.CliFrame.Collect.{feed, Input, characters, line_of}
use nivalo_esp.CliFrame.Lines.{frame_line, Framed}
use nivalo_esp.CliFrame.Wipe.{expire_after}
use nivalo_esp.Common.{ℕ, ◌+◌, ◌≡◌, refl, true, arith, List, [], ◌∷◌, some, u32}

-- "ok", then a carriage return.
abbrev ok_line : Input
ok_line = (111, 10) ∷ (107, 11) ∷ (13, 12) ∷ []

abbrev four_cells : List ℕ
four_cells = 0 ∷ 0 ∷ 0 ∷ 0 ∷ []

frame_line_example :
    let (f, b) = feed (new 4 100) ok_line (some four_cells) in
    Framed (push f 10 13 b) (line_of 4 (characters ok_line))
frame_line_example =
    frame_line 4 100 13 ok_line four_cells (omega arith)
      (omega arith, (omega arith, (omega arith, tt)))

expire_after_example :
    expire
      (record (new 4 100) { active = true; started_at = 4294967000; length = 2 })
      (u32 (4294967000 + 600))
      (some (1 ∷ 2 ∷ 3 ∷ 4 ∷ []))
    ≡ (dropped, new 4 100, some (0 ∷ 0 ∷ 3 ∷ 4 ∷ []))
unfolding new
expire_after_example =
    expire_after (record (new 4 100) { active = true; started_at = 4294967000; length = 2 }) 600
      (1 ∷ 2 ∷ 3 ∷ 4 ∷ []) refl (omega arith) (omega arith) (omega arith)
