-- ===== src/Table.antt =====
-- processors/table/table_processer.py: cells, tables, the reader of a sheet, and the workbooks.
pub mod Cell
pub mod Index
pub mod Sheet
pub mod Config
pub mod Open
pub mod Workbook
