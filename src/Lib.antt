-- ===== src/Lib.antt =====
-- Verification of the pigugu server.
--
-- The server has two Python programs that share PostgreSQL and Redis. The device API (api/) binds toys
-- to users, hands them credentials and firmware, and pushes events to the App. The voice agent (pigagent/)
-- turns the speech of a toy into turns of a conversation, lets a language model answer with tools, and
-- runs the roast games on top. They meet in the tables, in Redis, and in the events that the agent
-- publishes for the App.
--
-- Parts, files and code
--
--   Common, with Common/Tests, Lists, Dict, Int and Text: Boolean tests, lists measured by native numbers,
--   Python's dict as an association list in the order of insertion, integers, texts as code points.
--
--   Models: the rows of the tables (api/models/device_ota_job.py, api/models/firmware_version.py,
--   api/models/device.py).
--
--   Ota: firmware upgrades (api/modules/device/ota.py). Ota/Semver is the order of versions, Ota/Tables the
--   queries, Ota/Jobs the check of a device (process_check), Ota/Create the start of an upgrade by a user
--   (create_upgrade_job, its endpoint in api/modules/device/router.py, and the commit of
--   api/core/database.py), Ota/Reports the reports of a device, the sweep of jobs that time out, and the
--   pushes. The other files prove: Ota/Rows and Ota/Invariant prepare, Ota/OneActive, Ota/Trigger and
--   Ota/Reach show the invariant of the jobs over all sequences of operations, Ota/CheckResults, Ota/Due,
--   Ota/ReportResults, Ota/Advanced, Ota/Progress and Ota/SweepResults the behaviour of the operations,
--   Ota/Stale a check that a sweep overtakes.
--
--   Binding: the devices of a user (api/modules/device/service.py, api/modules/device/iot.py).
--   Binding/Service is the binding, the unbinding and the active device, Binding/Provisioning the sessions
--   that precede a binding (create_provisioning_session, issue_mqtt_credentials), Binding/Connectivity their
--   verification (verify_connectivity),
--   Binding/Registration the messages of a device that is being provisioned (_handle_online,
--   _handle_register), Binding/Speaker the messages about the loudness of a device and get_device_volume and
--   set_device_volume. Binding/Active, Binding/Unbinding, Binding/FiveOpen, Binding/Credentials,
--   Binding/Verification, Binding/Registered and Binding/Levels prove.
--
--   RateLimit: the sliding window of the provisioning endpoints (api/core/rate_limit.py). RateLimit/Limiter
--   is the code, RateLimit/Window and RateLimit/Refusal prove.
--
--   Context: the memory of the conversations (pigagent/context). Context/Record is a stored turn
--   (schema.py), Context/Memory the sessions of the manager, Context/Storage what it keeps in Redis and
--   PostgreSQL, Context/Assignment the keys of a new turn, Context/Recording add_turn, Context/Assembly the
--   three ways to assemble a context, Context/View its form as messages (manager.py), Context/Compression and
--   Context/Scenarios the compressor and its tasks (compressor.py). Context/HotTurns and Context/Kept prepare;
--   Context/Numbering, Context/Recovery, Context/Fading, Context/Warm, Context/Lost and Context/Again prove.
--
--   Roast: the games (pigagent/roast). Roast/State is the session and its form in Redis, Roast/Storage the
--   operations on Redis and PostgreSQL with the pending prompts, Roast/Judging what the modes make of a
--   director's verdict, Roast/Triggers the triggers of the modes, Roast/Tick one turn (GameMode.tick),
--   Roast/Score the scores, Roast/Activate the start of a game and the records for the director, Roast/Settle its
--   end by the agent (mark_roast_complete of pigagent/tools/roast.py). Roast/Turns, Roast/Endings,
--   Roast/Knockout, Roast/Sessions and Roast/Settled prove. Roast/Overlap has the turn that the end of a reply
--   starts (_stream_roast of pigagent/agent.py) after the reply has ended its game, and proves.
--
--   Agent: the agent's loop (pigagent/core/agent). Agent/Messages is pigagent/core/llm/types.py,
--   Agent/Sanitize sanitize.py, Agent/Executor executor.py, Agent/Runner the loop of run with state.py and
--   stop.py, Agent/Stream and Agent/StreamLoop the loop of stream, both of runner.py, Agent/Interrupts
--   interrupt.py. Agent/SanitizeResults, Agent/RunResults, Agent/Responses, Agent/LoopAnswered, Agent/Answered,
--   Agent/StreamResults and Agent/InterruptResults prove.
--
--   Voice: the turns of a conversation (pigagent/voice). Voice/Segments is segments.py, Voice/Interims
--   interims.py, Voice/Silero the detector of pigagent/providers/vad/silero.py (the server creates the one of
--   onnx.py beside it, which keeps no flags and is not modelled), Voice/Turn the record of a
--   turn and its commit (storage.py), Voice/Observer the state and the buffers of the observer and
--   Voice/Session its turns and the tasks that commit them, Voice/Steps both as steps in any order
--   (pipecat/turn_storage_observer.py), Voice/EchoGate the bridge of the detector (pipecat/vad_bridge.py).
--   Voice/SegmentResults, Voice/Trailing, Voice/InterimResults,
--   Voice/Chunks, Voice/Commit, Voice/Owners, Voice/Committed, Voice/Sounds and Voice/Held prove.
--
--   Volume: the tool that sets the loudness of a toy. Volume/Device is what the toy answers, Volume/Bridge
--   the queue of writes that wait (pigagent/voice/pipecat/mcp_bridge.py), Volume/Tool the handler of the tool
--   (pigagent/tools/volume.py). Volume/Honesty and Volume/Flushes prove.
--
--   Ws: the App's WebSocket connections in one process (api/modules/ws/manager.py). Ws/Manager is the code,
--   Ws/Delivery proves.
--
--   Each part has a module Examples (also TurnExamples, SettleExamples and ProvisioningExamples) with concrete states, at which its theorems are applied.
--
-- How the code is modelled
--
--   A table is a list of rows in the order of insertion; a query is a selection of its rows, with the best
--   row where the query has an order and a limit. Identifiers of the API's rows are numbers, those of the
--   games are texts; fresh ones are arguments. Time is an argument, in whole seconds. A support of a debate
--   is in hundredths of a percent. The columns that the ORM stamps by itself (updated_at) are left out.
--   Redis has no expiry here, and each call of it or of PostgreSQL either works or fails by the state of the
--   link; a failure that the code catches and logs changes nothing. A call under a lock, or without an await
--   inside, is one step; what can come between two steps is a choice of the sequence of steps. A request of
--   the upgrade service is one step too, though it awaits between reading a job and writing it: the
--   sequences of Ota/Reach are those of requests one after another, with the inserts of others beside a
--   trigger, and Ota/Stale has a sweep between the read and the write of a check. A cancellation of the agent's
--   loop is an answer of the model or of the tools: it comes while the loop waits for them.
--
--   Parameters stand for what the code calls and does not contain: the language model and its stream, the
--   handlers of tools and the JSON parser of their arguments, the texts of the prompt store. Case and blanks
--   of texts are those of ASCII.
--
--   The mutable storage of a turn is shared by the observer and the speech output: the storages are a
--   function of the turn's number, and whoever holds a turn holds its number. The model of the compressor and
--   the network of the detector are parameters; so are the answers of the toy, of the cloud and of the pings.
--
--   Bounds: the loop of the agent runs on fuel, one unit for each test of the stop conditions; with the
--   default conditions one more than the step limit is enough. The detector's loop over its buffer runs on
--   fuel, one unit for each byte, and each chunk takes at least one. All other loops are over lists.
--
-- Not modelled
--
--   The other modules of the API (auth, games, gameplay, news, push), the parts of the IoT service that answer
--   a device after its registration, the bridges of the voice pipeline but the observer and that of the
--   detector, the providers of speech and language models, metrics and the crawler. Of the modelled parts: the
--   log of the director's decisions, a failure of the prompt store when the director's prompt is read, the decorator check_interrupt, the tool registry, the tools start_roast
--   and list_active_roasts, the App's view of upgrades, the correlation of calls and replies in mcp_bridge.py,
--   a flush of waiting writes that a command interrupts, the contents of the files of a turn, and telemetry.
pub mod Agent
pub mod Binding
pub mod Common
pub mod Context
pub mod Models
pub mod Ota
pub mod RateLimit
pub mod Roast
pub mod Voice
pub mod Volume
pub mod Ws
