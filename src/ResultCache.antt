-- ===== src/ResultCache.antt =====
-- src/NivaloCommandResultCache.h: the results of the last eight commands.
pub mod Recent
pub mod Fifo
pub mod Kept
mod Tests
use nivalo_esp.Common.{
  ℕ, ◌+◌, ◌%◌, ◌-◌, Bool, true, false, not, ◌&&◌, ◌||◌, List, [], ◌∷◌, Option, none, some, length,
  set, take, replicate, ltb, if◌then◌else◌, is_some, Text, text_eq, is_empty, or_empty,
}

abbrev pub cache_capacity : ℕ
cache_capacity = 8

abbrev pub id_capacity : ℕ
id_capacity = 40

abbrev pub name_capacity : ℕ
name_capacity = 65

abbrev pub status_capacity : ℕ
status_capacity = 16

abbrev pub message_capacity : ℕ
message_capacity = 96

pub record CompletedCommand : Type 0 where
  pub command_id : Text
  pub command_name : Text
  pub status : Text
  pub message : Text

-- `_entries` and `_occupied` in one: an entry that is not occupied is `none`.
pub record ResultCache : Type 0 where
  pub entries : List (Option CompletedCommand)
  pub next : ℕ

pub empty : ResultCache
empty = record { entries = replicate cache_capacity none; next = 0 }

unfoldable pub valid : Option Text → ℕ → Bool
valid none capacity = false
valid (some value) capacity = not (is_empty value) && ltb (length value) capacity

-- What the copy leaves in a buffer of this capacity.
copy : ℕ → Text → Text
copy capacity source = take (capacity - 1) source

-- The loop in `find`.
pub find_in : Text → List (Option CompletedCommand) → Option CompletedCommand
find_in command_id [] = none
find_in command_id (none ∷ rest) = find_in command_id rest
find_in command_id (some e ∷ rest) =
    let later = find_in command_id rest in if text_eq e.command_id command_id then some e else later

pub find : ResultCache → Option Text → Option CompletedCommand
unfolding valid find_in
find c command_id =
    if not (valid command_id id_capacity) then none else find_in (or_empty command_id) c.entries

-- The entry that `remember` stores.
pub completed : Text → Text → Text → Text → CompletedCommand
unfolding copy
completed command_id command_name status message = record {
  command_id = copy id_capacity command_id;
  command_name = copy name_capacity command_name;
  status = copy status_capacity status;
  message = copy message_capacity message;
}

pub remember :
    ResultCache → Option Text → Option Text → Option Text → Option Text → Bool × ResultCache
remember c command_id command_name status message =
    if not (valid command_id id_capacity)
      || not (valid command_name name_capacity)
      || not (valid status status_capacity)
      || not (is_some message)
    then (false, c)
    else (if is_some (find c command_id) then (true, c) else (
      true,
      record {
        entries = set c.entries c.next (
            some (
              completed (or_empty command_id) (or_empty command_name) (or_empty status)
                (or_empty message)));
        next = (c.next + 1) % cache_capacity;
      },
    ))
