-- ===== src/ResultCache/Tests.antt =====
-- The theorem at a concrete input.
use nivalo_esp.ResultCache.{empty, valid, find_in, find, find, remember}
use nivalo_esp.ResultCache.Recent.{Call, remember_newest}
use nivalo_esp.ResultCache.Fifo.{remember_all, newest_all, find-remember_all}
use nivalo_esp.Common.{◌≡◌, refl, List, [], ◌∷◌, none, some, codes, replicate}

abbrev restart : Call
restart = record {
  command_id = some (codes "c1");
  command_name = some (codes "restart");
  status = some (codes "completed");
  message = some [];
}

abbrev again : Call
again = record restart { status = some (codes "failed") }

abbrev calls : List Call
calls = restart ∷ again ∷ record restart { command_id = some (codes "c2") } ∷ []

find-remember_all_example :
    let c = remember_all calls empty in
    let queue = newest_all calls (replicate 8 none) in
    (find c (some (codes "c1")) ≡ find_in (codes "c1") queue)
    × ((remember c again.command_id again.command_name again.status again.message).0
        ≡ (remember_newest queue again).0)
find-remember_all_example = find-remember_all calls (codes "c1") again (unfold valid in refl)
