-- ===== src/Sdk/Dispatch/Tests.antt =====
-- The theorem at a concrete input.
use nivalo_esp.ResultCache.{empty}
use nivalo_esp.Sdk.Registry.{SdkRegistry}
use nivalo_esp.Sdk.Dispatch.{World, SdkState, Command, succeeded}
use nivalo_esp.Common.{pos, ℕ, ◌+◌, true, List, [], ◌∷◌, some, Text, codes}

-- A world that counts what its handlers do.
abbrev counting : World ℕ ℕ ℕ
counting = record {
  ack = λ w id status message. w;
  event = λ w name what severity. w;
  call_function = λ h arguments w. (pos h, w + 1);
  call_command = λ h name arguments w. (succeeded, ([], w + 1));
  publish_definitions = λ w. (true, w);
  int_text = λ n. codes "1";
}

abbrev no_functions : SdkRegistry ℕ ℕ ℕ
no_functions = record { functions = []; variables = []; command_handler = some 5 }

abbrev start : SdkState ℕ
start = record { results = empty; world = 0 }

abbrev command : Text → Text → Command
command id name = record { command_id = some id; command_name = name; arguments = [] }

abbrev later : List Command
later = command (codes "c2") (codes "open") ∷ command (codes "c3") (codes "close") ∷ []
