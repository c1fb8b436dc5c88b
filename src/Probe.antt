-- ===== src/Probe.antt =====
-- src/testbridge/qml_probe.h and .cpp, `QmlProbe`: what a client of the bridge sees of the objects of QML, and
-- what it does to them. Objects has the walk over the objects and the handles, Items the trees of items and the hit
-- test, Input the names of buttons and keys, Values what is read of parameters and objects, Methods what acts on an object.
pub mod Objects
pub mod Items
pub mod Input
pub mod Values
pub mod Methods
mod Examples
