-- ===== src/Materials.antt =====
-- processors/materials/parser.py: the parser of material names.
pub mod Block
pub mod Tree
pub mod Parser
