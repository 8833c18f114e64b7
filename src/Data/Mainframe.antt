-- ===== src/Data/Mainframe.antt =====
-- src/data_processing/mainframe_parser.py: the decoders of fields, copybook layouts, records, and
-- the parse of a file with its cache and summary. The codec cp037, the test for white space and
-- float arithmetic are arguments.
pub mod Decimal
pub mod Binary
pub mod Layout
pub mod Records
pub mod Files
pub mod Blocks
