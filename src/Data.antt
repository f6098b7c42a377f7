-- ===== src/Data.antt =====
-- Data trees (Holder/IDataTree.h, DTUtils.h and DTUtils.cpp): the conversion of integers and the walk
-- over a tree.
pub mod Convert
pub mod Range
pub mod Walk
pub mod Simple
pub mod Access
pub mod Tests
