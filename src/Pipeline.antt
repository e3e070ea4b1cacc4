-- ===== src/Pipeline.antt =====
-- apps/data-pipeline/app: how the training corpus is put together. Draws of `random.Random`, files
-- and networks are parameters; a record holds the columns that the modelled code reads.
pub mod Groups
pub mod Split
pub mod Runs
pub mod Folds
pub mod Words
pub mod Attach
pub mod Capping
pub mod Pools
pub mod Splice
