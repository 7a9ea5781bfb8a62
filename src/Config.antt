-- ===== src/Config.antt =====
-- deps/common/config: the tree of values, its JSON back end, and the lookup by paths. A text is the
-- list of its bytes. `double` and what is done with it are parameters.
pub mod Value
pub mod Json
pub mod Lookup
pub mod Tests
