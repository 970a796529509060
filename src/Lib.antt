-- ===== src/Lib.antt =====
-- nivalo-esp32, the Arduino library that connects an ESP32 to the Nivalo platform. The device is
-- provisioned over a serial CLI, a portal or a claim, keeps its credentials in the flash, connects
-- to MQTT, sends telemetry and runs commands, and exchanges frames with a secondary MCU over SPI.
--
-- Link to the secondary MCU:
--   Transport (src/NivaloLinkSpiTransport.{h,cpp}) builds, exchanges and parses the frames of 1024
--     bytes: buildFrame is `build_frame`, parseFrameAt is `parse_frame_at`, and exchange is
--     `exchange`, which gets the bytes that the bus clocks in as an argument.
--   Crc is the checksum of the same file, bit by bit.
--   ReceiveSequence (src/NivaloLinkReceiveSequence.h) tells repeated frames from new ones;
--     Transport asks it about each frame that it accepts.
--   Link (src/NivaloDeviceLink.cpp) is drainNivaloLink, which says hello, sends heartbeats and
--     polls; the exchanges of the transport are a parameter there. Link.Frames is
--     handleNivaloLinkFrame, what a device publishes for a frame that it received, and
--     Link.Repeated what Transport and it make of a frame that comes again.
--   PollPolicy (src/NivaloLinkCommandPollPolicy.{h,cpp}, src/NivaloLinkManager.h) puts off polls
--     behind commands.
-- Provisioning:
--   CliFrame (src/NivaloCliFrame.{h,cpp}) collects the lines of the CLI in a caller's buffer.
--   CliPolicy (src/NivaloCliProvisioningPolicy.cpp) says which values are accepted.
--   Credentials (src/NivaloProvisioning.{h,cpp}) are the credentials and pending claims, their
--     validity and their JSON.
--   Store (NivaloProvisioningStore of src/NivaloProvisioning.cpp) keeps them in the flash, in two
--     slots of which one is active.
--   Transaction (src/NivaloCliTransaction.h, finishCliProvisioning) stages and commits a
--     replacement, on the operations of Store.
--   TimePolicy (src/NivaloProvisioningTimePolicy.h) has the delays of clock retries.
--   Provisioning (src/NivaloProvisioning.{h,cpp}, src/NivaloCliClaimRecoveryPolicy.h) is the state
--     machine over these: Loop has the passes of `loop`, Exchange the exchange of a claim, Claim
--     the claims of the CLI and the forms of the portal, Boot `begin` and `factoryReset`. Run is a
--     device to which these happen in any order.
-- Device:
--   Broker (src/NivaloDeviceLifecycle.cpp) tells the hosts that are local, and Lifecycle
--     (`beginMqtt` of the same file) checks a configuration and takes it over, with the socket of
--     Mqtt.
--   Mqtt (src/NivaloConnection.{h,cpp}) connects and retries, by Reconnect.
--   Firmware (src/NivaloFirmwareSecurity.cpp) has the manifest and the signature of a firmware,
--     with the signing keys that Lifecycle accepted.
--   Ota (src/NivaloDeviceOta.cpp, src/NivaloOta.{h,cpp}) is handleFirmwareCommand: Command checks
--     it, by Firmware, and composes Download (the staging file and the update of the ESP32),
--     Recovery and Stm32 (the programming of the secondary MCU), on the loops over files of Files.
--   Sdk.Registry (src/NivaloSdkRegistry.{h,cpp}) has the functions and variables of an application,
--     and Sdk.Dispatch (src/NivaloDeviceSdk.cpp) the commands that they run, which ResultCache
--     keeps from running twice.
--   Reconnect (src/NivaloReconnectPolicy.{h,cpp}) says when MQTT is tried again.
--   Reports (src/NivaloDeviceReports.cpp) are the results and events that wait to be published. A
--     command that arrives while a result is published queues its reports in the midst of the
--     drain.
--   Telemetry (src/NivaloDeviceMessaging.cpp) buffers the payloads that could not be sent.
--   Command (src/NivaloDeviceCommand.cpp) is mqttCallback, which composes these parts: it queues
--     Reports, and gives a command to Ota, to Sdk.Dispatch or, as a frame of Transport, to the
--     secondary MCU, whose answer goes to Link.Frames. A firmware command that succeeds makes the
--     device restart: the callback has no state after it.
--   StatusPixel (src/NivaloStatusPixel.cpp) has the brightness and colours of the status light.
--   ResultCache (src/NivaloCommandResultCache.h) has the results of the last eight commands.
--
-- Fixed-width integers are natural numbers with their wrap written out, a `char` is its byte, and a
-- string is the list of its bytes. An operation that changes an object returns the new state. The
-- JSON library (`Json`), the Preferences library (`Preferences`), the MQTT client (`Connection`,
-- `MqttClient`), mbedtls (`MbedTls`), an application's handlers (`World`), the exchanges of the
-- link (`LinkWorld`), the HTTP client, the file system, the updater and the programmer
-- (`OtaWorld`), the publishing of reports (`Publisher`), what frames and commands have in their
-- JSON (`FrameWorld`, `CommandWorld`) and what a pass of the provisioning reads from outside
-- (`Outside`) are parameters; what is asked of the flash is `Store.Flash.IsFlash`, and of the JSON
-- library that it parses the document that it printed (`Credentials.Encoding.RoundTrips`). Of the
-- files and the flash of a firmware command it is asked that reads give what is there and that only
-- writing changes it (`Ota.Programmed.IsDevice`), so that no other firmware command runs meanwhile.
-- No hypothesis says that a write to the flash succeeds. Of a command that arrives while the MQTT
-- client runs only the reports are seen. The clock is read once in a pass, and the registry stays
-- as it is while a command runs.
-- Loops are structural recursion on their data or on the rounds left: crc_bits on the eight bits,
-- ipv4_loop and valid_keys on their lists, delay_loop on the failed attempts, decimal on ten digits
-- (a size is below 2 ^ 32), drain_loop on the rounds left of eight, queue_loop, drain_acks and
-- drain_events on the slots, copy_loop, program_loop, verify_loop and find_change on the chunks of
-- their file, hash_loop on its bytes, download_loop on the rounds while the client is connected,
-- flush_loop on the count of the entries, which each round lowers.
--
-- Not modelled: the documents that are published, and the reading of those of commands and frames,
-- which are calls of the JSON library; the identify and provision requests of the CLI; the C
-- library's time and identifiers, the serial port and the logs, which are input and output; and the
-- vendored debugger library under third_party.
pub mod Broker
pub mod CliFrame
pub mod CliPolicy
pub mod Command
pub mod Common
pub mod Crc
pub mod Credentials
pub mod Firmware
pub mod Lifecycle
pub mod Link
pub mod Mqtt
pub mod Ota
pub mod PollPolicy
pub mod Provisioning
pub mod ReceiveSequence
pub mod Reconnect
pub mod Reports
pub mod ResultCache
pub mod Sdk
pub mod StatusPixel
pub mod Store
pub mod Telemetry
pub mod TimePolicy
pub mod Transaction
pub mod Transport
