-- ===== src/Lib.antt =====
-- The Legacy Industrial Data Platform (Python): what its core, storage, protocol, automation,
-- reporting and data processing packages compute, as functions, with theorems about them.
--
-- The platform reads sensors over field protocols, parses nightly batch files, runs its jobs from a
-- scheduler, loads plugins that process the data, and keeps results in a cache in memory and on
-- disk. All packages raise the exceptions of src/core/exceptions.py and count with the counter of
-- src/core/types.py. The code has been moved from Python 2 to 3; byte strings and texts are kept
-- apart here the way Python 3 keeps them apart, with the exceptions that follow.
--
-- The files (paths of the program from the repository's root):
--   Prelude and its children: tests, lists, integers, sorting, texts, dictionaries as association
--     lists in insertion order (Dict), queues (Queue), exceptions, results and byte strings (Py),
--     exclusive or (Xor), and the formats of struct (Struct).
--   Core.Itertools (src/core/itertools_helpers.py): batches, windows, groups, dictionary views.
--   Core.Types (src/core/types.py): LargeCounter, DataPoint, sort_data_points;
--     Core.Readings: the decoders of sensor readings.
--   Core.Errors (src/core/exceptions.py): the hierarchy, safe_execute, wrap_protocol_error.
--   Core.Utils (src/core/utils.py): get_nested, merge_dicts, chunked_range, unique_tags.
--   Core.Config (src/core/config_loader.py): load and the accessors.
--   Data.Mainframe (src/data_processing/mainframe_parser.py): the decoders of fields (Decimal,
--     Binary), CopybookLayout (Layout), MainframeRecord and _parse_record (Records), parse_file with
--     its cache and summary (Files), and what a parse makes of a file (Blocks).
--   Core.Strings (src/core/string_helpers.py): detection and conversions (Convert), build_csv_line
--     (Lines) with a reader of CSV (Split).
--   Data.Logs (src/data_processing/log_parser.py): the patterns as backtracking matchers (Regex),
--     LogEntry and LogFilter (Entry), LogParser (Parser), its loop (Rows, Loop) and calls (Files,
--     Scada).
--   Data.Json (src/data_processing/json_handler.py): values (Value), JsonRecordSet (RecordSet,
--     Envelope), JsonHandler (Handler), dumps and loads (Laws), validation and renaming (Checks).
--   Data.Xml (src/data_processing/xml_transformer.py): tags and entities (Names), XmlNodeMapper
--     (Mapper), XmlTransformer (Transformer) and the order of its walk (Order).
--   Data.Analyzer (src/data_processing/text_analyzer.py): tokens and fingerprints (Tokens), keywords
--     (Keywords), similarity (Sets), classify_fault (Faults), deduplicate (Duplicates).
--   Data.Csv (src/data_processing/csv_processor.py): CsvFieldMapper and records (Mapper), CsvProcessor
--     (Processor), what records hold (Records), and where its operations raise (Raises).
--   Storage.Files (src/storage/file_store.py): FileStore over a file system (Store), the format of
--     dumps (Dumps), purge_before and clear_temp (Purge), and what a purge removes (Fates, Removed).
--   Storage.Database (src/storage/database.py): QueryBuilder (Query), TransactionContext
--     (Connection), DatabaseManager (Manager), and what a batch makes of the tables (Rows, Batch).
--   Reporting (src/reporting/web_dashboard.py): SessionManager (Sessions), DashboardServer (Alarms,
--     History).
--   Io.Serial (src/io_protocols/serial_sensor.py): the packet stream (Packets) and how it ends
--     (Failure), SerialSensorReader (Reader).
--   Io.Opcua (src/io_protocols/opcua_client.py): nodes and subscriptions (Node), OpcUaClient (Client)
--     and its steps (Steps).
--   Storage.Cache (src/storage/cache.py): CacheEntry and LRUCache (Lru), CacheManager with its files
--     (Manager).
--   Io.Modbus (src/io_protocols/modbus_client.py): crc16_modbus (Crc), ModbusFrame (Frame),
--     RegisterBank (Bank), and the transactions of ModbusClient (Client).
--   Io.Mqtt (src/io_protocols/mqtt_listener.py): topic filters (Topics), MqttSubscription
--     (Subscription), the remaining length (Length), packets and MqttListener (Listener).
--   Automation.Scheduler (src/automation/scheduler.py): ScheduledTask (Task), TaskWorker and
--     TaskScheduler (Ops), and their properties (Due, Dispatch, Cancel, Known, Valid, Running, Steps).
--   Automation.Plugins (src/automation/plugin_loader.py): PluginRegistry (Registry), PluginBase and
--     PluginLoader (Loader, Lifecycle), what they do to data and on a reload (Runs, Reload).
--   Tests in each package: runs on concrete inputs and instances of the theorems.
--
-- How the code is carried over. An object is a record, a method a function from the record before
-- to the record after with its result. Clock readings are arguments, one for each call of the
-- clock, as natural numbers; prints and locks are left out, so that an operation is one step, and
-- interleavings are sequences of steps. The scheduler's tasks are shared objects: they stand in a
-- heap under their ids. Files, sockets, hashes, codecs, pickles and the code of tasks and plugins
-- are arguments. Integers that the code cuts to a width are cut here too.
--
-- Loops that do not recurse on a list run on fuel: batch_readings, recv_exact, parse_data,
-- chunked_range, el. batch_loop, parse_loop and chunk_loop return none when it runs out, which the
-- theorems about them exclude; recv_exact has a round for each byte that is asked for and one more,
-- and el ends in its first round.
--
-- next_packet returns none without fuel; each of its turns reads an element at least, so that more
-- fuel than the source is long is enough. find_tokens has the length of its text, of which each
-- round takes a character at least, and field_name one digit for each unit of its number.
--
-- Not modelled: reports, mail and the pages of the dashboard (formatted text, smtplib and the HTTP
-- server of the standard library), script_runner.py (exec and subprocesses) and scripts; the threads
-- that poll, floats other than as opaque values or fractions, the average similarity of a batch, and
-- the formatting of messages, which are kept by what they are formatted from. What parses JSON, XML
-- and the rows of a CSV file, and what runs SQL, is a parameter, with what it returns as a value of
-- the model.

pub mod Prelude
pub mod Core
pub mod Data
pub mod Storage
pub mod Io
pub mod Automation
pub mod Reporting
