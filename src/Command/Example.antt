-- ===== src/Command/Example.antt =====
-- A device with a command for its parts.
use nivalo_esp.PollPolicy
use nivalo_esp.Transport.{Transport}
use nivalo_esp.ResultCache.{empty}
use nivalo_esp.Reports.{CommandAck, Slot, Publisher}
use nivalo_esp.Sdk.Registry.{SdkRegistry}
use nivalo_esp.Sdk.Dispatch.{World, succeeded}
use nivalo_esp.Ota.Example.{Board, started, arguments}
use nivalo_esp.Link.Frames.{FrameWorld, malformed as bad_json}
use nivalo_esp.Command.{ParsedCommand, malformed, parsed, CommandDocument, CommandWorld, Device}
use nivalo_esp.Common.{ℕ, true, false, List, [], ◌∷◌, none, some, replicate, Text, codes, pos}

abbrev pub opens : CommandDocument
opens = record {
  payload_command = some (codes "open");
  command = none;
  arguments = record {
    text = none;
    url = none;
    signed_url = none;
    download_url = none;
    json = some (codes "{\"by\":3}");
    firmware = arguments;
  };
  payload_requested_by = none;
  requested_by = none;
  payload_text = none;
  payload_json = [];
}

abbrev pub read_message : List ℕ → ParsedCommand
read_message [] = malformed (codes "EmptyInput")
read_message (c ∷ s) = parsed opens

abbrev pub computer : CommandWorld ℕ Board
computer = record {
  parse = read_message;
  command_json = λ id name by. (codes "{\"command\":\"open\"}", false);
  client_loop = λ w. ([], w);
  millis = λ w. 5000;
  wire = λ w. [];
  transfer = λ w bytes. w;
  no_progress = 0;
}

abbrev pub silent : Publisher ℕ Board
silent = record { publish_ack = λ w a. ([], w); publish_event = λ w e. w }

abbrev pub no_frames : FrameWorld ℕ Board
no_frames = record {
  parse = λ s. bad_json s;
  publish = λ w p. w;
  publish_definitions = λ w s. (record { bytes = 0; overflowed = false; published = false }, w);
}

abbrev pub application : World ℕ ℕ Board
application = record {
  ack = λ w id status message. w;
  event = λ w name what severity. w;
  call_function = λ h arguments w. (pos h, w);
  call_command = λ h name arguments w. (succeeded, ([], w));
  publish_definitions = λ w. (true, w);
  int_text = λ n. codes "1";
}

abbrev pub nothing_registered : SdkRegistry ℕ ℕ ℕ
nothing_registered = record { functions = []; variables = []; command_handler = none }

abbrev pub one_handler : SdkRegistry ℕ ℕ ℕ
one_handler = record nothing_registered { command_handler = some 5 }

abbrev pub bus : Transport
bus = record {
  started = true;
  paused = false;
  next_seq = 7;
  receive_sequence = record { has_sequence = true; last_sequence = 3 };
  last_error = [];
  tx_frame = [];
  rx_frame = [];
}

abbrev free_slot : Slot (CommandAck ℕ)
free_slot = record {
  queued = false;
  report = record { command_id = []; status = []; message = []; progress = 0 };
}

abbrev pub device : Device ℕ Board
device = record {
  reports = record { acks = replicate 8 free_slot; events = []; world = started.world };
  results = empty;
  manager = PollPolicy.begin;
  transport = bus;
  acceptance_pending = false;
}

abbrev pub command_topic : Text
command_topic = codes "devices/d1/commands/c1"
