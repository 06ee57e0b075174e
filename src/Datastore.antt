-- ===== src/Datastore.antt =====
-- The data store: the records of src/datastore/common.ts, which the two stores share.
pub mod Common
