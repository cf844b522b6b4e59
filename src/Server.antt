-- ===== src/Server.antt =====
-- src/server: the parser of execution arguments.
pub mod ArgsParser
pub mod SchemaManager
pub mod GraphqlServer
