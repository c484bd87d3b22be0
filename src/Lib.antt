-- ===== src/Lib.antt =====
-- A model of MatterHub, a hub between Matter devices and an MQTT broker that runs on an ESP32, and
-- the theorems about it. Paths are from the repository's root.
--
-- The program's parts, and where they are modelled:
--   * src/main/MQTTManager.cpp, MQTTCommands.cpp and their headers: the MQTT client of the hub. Mqtt
--     has the manager's statics as the record `Manager` and one function per member, named as in the
--     source (`Publish` is `publish_command`, the two `Subscribe` are `subscribe_command` and, with a
--     callback, `subscribe_with`). `mqtt_event_handler` is the event handler of the client.
--     Mqtt/Fates says, for a whole history and without a store, which commands reach the client.
--   * src/main/include/CloudConnector.h: messages from and to the cloud. Text has its loops over
--     `std::string`, Cloud has `DCMD_callback` and `handleWrite`, Cloud/Startup `InitDCMD`, and
--     Telemetry `onAttributeReadCallback`.
--   * src/main/InteractionModelHelper.cpp, ConnectionHelper.cpp, include/Subscription.h and the
--     commands' data: what the cloud connector and the shell ask of a device. Interaction has the
--     scheduling calls, the request of a connection and the callbacks of a connected device,
--     Interaction/Callbacks those of the read client, and Interaction/Failures the failure of a
--     connection, with the objects that the callbacks point to.
--   * src/main/InteractionModel.cpp and its header: Reports has the class InteractionModelReports,
--     with read and subscribe requests for attributes (Reports/Attributes) and events
--     (Reports/Events) and the read clients in flight; Model has the requests by identity, the
--     repeated commands and the writes, Model/Groups those to groups, Model/Answers the callbacks
--     that bring the answers, and Model/Connected the object that makes a write of the helper.
--   * src/main/SubscribeCommands.cpp and SubscriptionManager.cpp: Subscriptions has the shell command
--     that subscribes, with the objects on the heap, so that a pointer can dangle.
--   * src/main/ClusterCommands.cpp: Clusters has the shell commands of the OnOff cluster, from the
--     command line to the response. Heap has the objects on the heap for these and the parts below.
--   * src/main/DiscoverCommands.cpp and its header: Discovery has the class DescriptionManager, which
--     asks a device for its endpoints, their clusters, and the attributes and commands of each;
--     Discovery/Commands has the shell command that starts it, Discovery/Birth the message that it
--     ends with, which Discovery/Birth/Expected describes apart from the code. Discovery/Walk, Steps, Walks and Described follow a device's answers.
--   * src/main/BindingHandler.cpp: Bindings has the workers and the handler that the binding manager
--     calls, Bindings/Shell the shell commands that bind and switch.
--   * the shell commands of these files: Shell has the tables of their Register functions, Shell/Passing
--     the handlers that print help or pass a line on, Shell/Handlers the run of a line, and Shell/Words
--     the words that lead to each handler.
--   * src/main/main.cpp: Hub has the order in which the parts start.
--   * src/main/DeviceCallbacks.cpp: DeviceCallbacks has the callback for a changed attribute of the
--     hub's own server.
--   * src/main/AppTask.cpp: App has the button, the queue of events and the loop that handles them.
-- Where parts act together: Bindings/Queue has the platform's work queue with the workers of the
-- binding handler, App/Lights what the button does to the lights, with the rounds of the task in
-- App/Rounds, and Shell/Bound what two lines of the shell do to them. Shell/Delivered has what a line
-- does to one device, Shell/Described what the broker gets of a line. Cloud/Delivered and Cloud/Reached
-- have what a message of the broker does to a device, and Telemetry/Reported what the broker gets of a
-- device's reports, with the messages as Telemetry/Expected describes them.
-- A message from the broker goes from `mqtt_event_handler` to `dcmd_callback`, which schedules work
-- through Interaction; a connected device is then asked through Reports; and what it reports goes
-- through Telemetry back to the MQTT manager. A discovery asks through Interaction and Reports too,
-- and publishes through the MQTT manager; the button schedules a command of the binding handler.
--
-- How the code is modelled. Stateful code passes a record of its state. Outcome has the results
-- of code that may throw or abort: exceptions of the standard library, an empty
-- `chip::Optional`, a null or dangling pointer, an iterator at the end, an array index out of
-- bounds. C strings and `std::string` are lists of character codes. OrderedMap is `std::map` as
-- a list of its entries in their order, with an iterator as the key of its element. Machine
-- integers are native numbers that are cut down to their width where the source converts them.
-- The Matter SDK, cJSON, the ESP MQTT client, `atoi` and the allocator are parameters: records
-- of the functions that the code uses (`ReportLibrary`, `ConnectionLibrary`, `CommandLibrary`,
-- `WriteLibrary`, `Cjson`, `TelemetryLibrary`, `ShellLibrary`, `ClusterLibrary`,
-- `DiscoveryLibrary`, `BirthLibrary`, `DescribeLibrary`, `BindingLibrary`, `GroupLibrary`,
-- `StatusLibrary`, `StartLibrary`, `EngineLibrary`, `SessionManager`). The event queue of FreeRTOS
-- is the interface `EventQueue`, operations with their laws. `std::stoull`, `std::stoi` and the `%u`,
-- `%llu` and `%d` of snprintf are written out in Text.
--
-- Bounds and fuel. `kMaxAllowedPaths` is 10, and the arrays of paths and filters have that
-- length. `split` gives its loop one unit of fuel more than the text has characters; the loop
-- over the stored commands gets one unit for each of them; `decimal` one more than the number;
-- the loop of the application task one for each event in its queue, which has room for 10.
-- `run`, the answers of a device to a discovery, counts the answers. The theorems on these
-- functions state results, so the fuel is enough. A subscription that does not name its
-- intervals has 1 and 10.
--
-- What is not modelled: log output other than that of the device callbacks, which do nothing else, the
-- order of the two readings of the clock, delays between repeated commands, the help texts of the
-- shell (of a list of help only the names of the commands are modelled), and what the SDK does with
-- a released session.
pub mod Prelude
pub mod Outcome
pub mod OrderedMap
pub mod Chip
pub mod Heap
pub mod Clusters
pub mod Reports
pub mod Mqtt
pub mod Text
pub mod Interaction
pub mod Cloud
pub mod Telemetry
pub mod Subscriptions
pub mod Model
pub mod Discovery
pub mod Bindings
pub mod App
pub mod Hub
pub mod Shell
pub mod DeviceCallbacks
