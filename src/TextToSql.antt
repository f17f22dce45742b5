-- ===== src/TextToSql.antt =====
-- app/text_to_sql: the templates of allow_list.py, the checks of validator.py and the statements of
-- executor.py. The searches of regular expressions, sqlglot, sqlparse and the database are parameters.
pub mod Templates
pub mod Validator
pub mod Executor
pub mod Examples
