-- ===== src/Loadcore.antt =====
-- src/iop/loadcore.cpp and the binder of src/iop/loader.hpp: the registry of libraries, the clients
-- bound to them, the boot records, the callbacks and the list of modules.
pub mod Tables
pub mod Bind
pub mod Register
pub mod Records
pub mod Modules
pub mod Chains
pub mod Detach
pub mod Take
pub mod Walks
pub mod Binding
pub mod Adopt
pub mod Gathered
pub mod Supersede
pub mod Order
pub mod Query
mod Tests
