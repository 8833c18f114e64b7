-- ===== src/Data/Xml.antt =====
-- src/data_processing/xml_transformer.py.
pub mod Names
pub mod Mapper
pub mod Transformer
pub mod Order
mod Tests
